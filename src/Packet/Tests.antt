-- ===== src/Packet/Tests.antt =====
-- Runs and instances of the packet functions at small packets.
use switch_lan_play_nx.Prelude.{ℕ, ◌-◌, ◌^◌, ◌≡◌, refl, List, [], ◌∷◌, ◌++◌, none, some, arith}
use switch_lan_play_nx.Packet.Checksum.{ip_header, ip_checksum, ip_sum, fold_sum}
use switch_lan_play_nx.Packet.Checksum.Verify.{words, ones_sum, ip_header-ones_sum}
use switch_lan_play_nx.Packet.Udp.{build_ipv4_udp, parse_ipv4_udp, udp_src_port}
use switch_lan_play_nx.Packet.Udp.RoundTrip.{parse_ipv4_udp-build_ipv4_udp}
use switch_lan_play_nx.Packet.Tcp.{Segment, build_ipv4_tcp, parse_ipv4_tcp, tcp_segment, tcp_packet}
use switch_lan_play_nx.Packet.Tcp.RoundTrip.{parse_ipv4_tcp-build_ipv4_tcp}
use switch_lan_play_nx.Packet.Tcp.Verify.{pseudo_words, tcp_segment-ones_sum}

-- 10.13.0.1 and 10.13.0.2
abbrev here : ℕ
here = 0x0a0d0001

abbrev there : ℕ
there = 0x0a0d0002

abbrev greeting : Segment
greeting = record {
  src_ip = here;
  src_port = 11452;
  dst_port = 11452;
  seq = 100;
  ack = 7;
  flags = 0x18;
  payload = 1 ∷ 2 ∷ 3 ∷ [];
}

-- The checksum of the header 45 00 00 1f .. 11 .. from 10.13.0.1 to 10.13.0.2.
header_runs :
    ip_header 31 17 here there
    ≡ 0x45 ∷ 0 ∷ 0 ∷ 31 ∷ 0 ∷ 0 ∷ 0 ∷ 0 ∷ 64 ∷ 17 ∷ 0x66 ∷ 0xb2 ∷ 10 ∷ 13 ∷ 0 ∷ 1 ∷ 10 ∷ 13 ∷ 0 ∷ 2
      ∷ []
unfolding ip_header ip_checksum ip_sum fold_sum
header_runs = refl

-- A datagram for another protocol and a truncated one are refused.
parse_refuses :
    (parse_ipv4_udp (tcp_packet there greeting) ≡ none) × (parse_ipv4_udp (1 ∷ []) ≡ none)
unfolding parse_ipv4_udp tcp_packet tcp_segment ip_header
parse_refuses = (refl, refl)

ip_header-ones_sum_example : ones_sum (words (ip_header 31 17 here there)) 0 ≡ 2 ^ 16 - 1
ip_header-ones_sum_example = ip_header-ones_sum 31 17 here there (omega arith)

parse_ipv4_udp-build_ipv4_udp_example :
    (pkt : List ℕ) × (build_ipv4_udp here there 11452 11452 (1 ∷ 2 ∷ []) ≡ some pkt)
    × (parse_ipv4_udp pkt ≡ some (record { src_ip = here; dst_port = 11452; payload = 1 ∷ 2 ∷ [] }))
    × (udp_src_port pkt ≡ 11452)
parse_ipv4_udp-build_ipv4_udp_example =
    parse_ipv4_udp-build_ipv4_udp here there 11452 11452 (1 ∷ 2 ∷ []) (omega arith) (omega arith)
      (omega arith) (omega arith)

parse_ipv4_tcp-build_ipv4_tcp_example :
    (pkt : List ℕ) × (build_ipv4_tcp there greeting ≡ some pkt)
    × (parse_ipv4_tcp pkt ≡ some greeting)
parse_ipv4_tcp-build_ipv4_tcp_example = parse_ipv4_tcp-build_ipv4_tcp there greeting (omega arith)

tcp_segment-ones_sum_example :
    ones_sum (pseudo_words here there 23 ++ words (tcp_segment there greeting)) 0 ≡ 2 ^ 16 - 1
tcp_segment-ones_sum_example =
    tcp_segment-ones_sum there greeting (omega arith) (omega arith) (omega arith)
