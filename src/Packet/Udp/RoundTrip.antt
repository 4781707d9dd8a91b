-- ===== src/Packet/Udp/RoundTrip.antt =====
-- What `SendTo` builds, `ParseIpv4Udp` takes apart again.
use switch_lan_play_nx.Prelude.{
  ℕ, ◌+◌, ◌-◌, ◌^◌, ◌≤◌, ◌<◌, ◌≡◌, List, some, length, take_all, arith,
}
use switch_lan_play_nx.Packet.Checksum.{ip_header}
use switch_lan_play_nx.Packet.Udp.{
  max_bridged_payload, udp_packet, build_ipv4_udp, parse_ipv4_udp, udp_src_port,
}

module _ (src_ip dst_ip src_port dst_port : ℕ) (payload : List ℕ) (ip_fits : src_ip < 2 ^ 32)
    (src_fits : src_port < 2 ^ 16) (dst_fits : dst_port < 2 ^ 16)
    (fits : length payload ≤ max_bridged_payload) where
  pub build_ipv4_udp-fits :
      build_ipv4_udp src_ip dst_ip src_port dst_port payload
      ≡ some (udp_packet src_ip dst_ip src_port dst_port payload)
  unfolding build_ipv4_udp
  build_ipv4_udp-fits = ground arith

  pub parse_ipv4_udp-udp_packet :
      parse_ipv4_udp (udp_packet src_ip dst_ip src_port dst_port payload)
      ≡ some (record { src_ip = src_ip; dst_port = dst_port; payload = payload })
  unfolding parse_ipv4_udp udp_packet ip_header
  parse_ipv4_udp-udp_packet = ground (arith, take_all (8 + length payload - 8) payload)

  pub udp_src_port-udp_packet :
      udp_src_port (udp_packet src_ip dst_ip src_port dst_port payload) ≡ src_port
  unfolding udp_packet ip_header
  udp_src_port-udp_packet = omega arith

  -- For addresses, ports and a payload within the limits `SendTo` builds a packet, from which
  -- `ParseIpv4Udp` reads back the source address, the destination port and the whole payload,
  -- and `RecvFrom` the source port.
  pub parse_ipv4_udp-build_ipv4_udp :
      (pkt : List ℕ) × (build_ipv4_udp src_ip dst_ip src_port dst_port payload ≡ some pkt)
      × (parse_ipv4_udp pkt
          ≡ some (record { src_ip = src_ip; dst_port = dst_port; payload = payload }))
      × (udp_src_port pkt ≡ src_port)
  parse_ipv4_udp-build_ipv4_udp = (
    udp_packet src_ip dst_ip src_port dst_port payload,
    build_ipv4_udp-fits,
    parse_ipv4_udp-udp_packet,
    udp_src_port-udp_packet,
  )
