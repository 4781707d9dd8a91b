-- ===== src/Packet/Tcp/RoundTrip.antt =====
-- What `SendTcpSegment` builds, `ParseIpv4Tcp` takes apart again.
use switch_lan_play_nx.Prelude.{
  ℕ, ◌+◌, ◌-◌, ◌^◌, ◌≤◌, ◌<◌, ◌≡◌, List, some, length, take_all, arith,
}
use switch_lan_play_nx.Packet.Checksum.{ip_header}
use switch_lan_play_nx.Packet.Udp.{max_bridged_payload}
use switch_lan_play_nx.Packet.Tcp.{Segment, tcp_segment, tcp_packet, build_ipv4_tcp, parse_ipv4_tcp}

-- The fields of a segment lie within their widths.
pub record Fits (s : Segment) : Type 0 where
  pub src_ip : s.src_ip < 2 ^ 32
  pub src_port : s.src_port < 2 ^ 16
  pub dst_port : s.dst_port < 2 ^ 16
  pub seq : s.seq < 2 ^ 32
  pub ack : s.ack < 2 ^ 32
  pub payload : length s.payload ≤ max_bridged_payload

module _ (dst_ip : ℕ) (s : Segment) where
  build_ipv4_tcp-Fits : Fits s → build_ipv4_tcp dst_ip s ≡ some (tcp_packet dst_ip s)
  unfolding build_ipv4_tcp
  build_ipv4_tcp-Fits fits = ground arith

  pub parse_ipv4_tcp-tcp_packet : Fits s → parse_ipv4_tcp (tcp_packet dst_ip s) ≡ some s
  unfolding parse_ipv4_tcp tcp_packet tcp_segment ip_header
  parse_ipv4_tcp-tcp_packet fits =
      ground (arith, take_all (40 + length s.payload - 20 - 20) s.payload)

  -- A segment whose fields fit their widths and whose payload fits the buffer is built, and
  -- `ParseIpv4Tcp` reads the very same segment back from the packet, to whichever address it goes.
  pub parse_ipv4_tcp-build_ipv4_tcp :
      Fits s → (pkt : List ℕ) × (build_ipv4_tcp dst_ip s ≡ some pkt) × (parse_ipv4_tcp pkt ≡ some s)
  parse_ipv4_tcp-build_ipv4_tcp fits =
      (tcp_packet dst_ip s, build_ipv4_tcp-Fits fits, parse_ipv4_tcp-tcp_packet fits)
