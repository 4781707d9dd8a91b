-- ===== src/Packet/Tcp.antt =====
-- `ParseIpv4Tcp` and `SendTcpSegment` of source/bsd/bsd_bridge_service.cpp.
pub mod RoundTrip
pub mod Verify
use switch_lan_play_nx.Prelude.{
  ℕ, ◌+◌, ◌-◌, ◌*◌, ◌/◌, ◌%◌, ◌^◌, Option, none, some, List, [], ◌∷◌, ◌++◌, Bool, ◌||◌, not, length,
  get_or, take, drop, ltb, ◌==◌, if◌then◌else◌, u8, be16, be32, bytes16, bytes32,
}
use switch_lan_play_nx.Packet.Checksum.{ip_header, tcp_checksum}
use switch_lan_play_nx.Packet.Udp.{header_len, ip_src, max_bridged_payload}

-- The out parameters of `ParseIpv4Tcp`.
pub record Segment : Type 0 where
  pub src_ip : ℕ
  pub src_port : ℕ
  pub dst_port : ℕ
  pub seq : ℕ
  pub ack : ℕ
  pub flags : ℕ
  pub payload : List ℕ

unfoldable pub parse_ipv4_tcp : List ℕ → Option Segment
parse_ipv4_tcp pkt =
    let ihl = header_len pkt in
    let at = λ (i : ℕ). get_or pkt (ihl + i) 0 in
    let data_offset = at 12 / 2 ^ 4 * 4 in
    if ltb (length pkt) 40
    then none
    else if not (get_or pkt 9 0 == 6) || ltb (length pkt) (ihl + 20)
    then none
    else if ltb data_offset 20 || ltb (length pkt) (ihl + data_offset)
    then none
    else some (record {
      src_ip = ip_src pkt;
      src_port = be16 (at 0) (at 1);
      dst_port = be16 (at 2) (at 3);
      seq = be32 (at 4) (at 5) (at 6) (at 7);
      ack = be32 (at 8) (at 9) (at 10) (at 11);
      flags = at 13;
      payload = take (length pkt - ihl - data_offset) (drop (ihl + data_offset) pkt);
    })

-- The segment with its checksum bytes given.
abbrev pub tcp_fields : Segment → List ℕ → List ℕ
tcp_fields s csum =
    bytes16 s.src_port
    ++ bytes16 s.dst_port
    ++ bytes32 s.seq
    ++ bytes32 s.ack
    ++ 5 * 2 ^ 4 ∷ s.flags ∷ 0x20 ∷ 0 ∷ (csum ++ 0 ∷ 0 ∷ s.payload)

unfoldable pub tcp_segment : ℕ → Segment → List ℕ
tcp_segment dst_ip s =
    let csum = tcp_checksum s.src_ip dst_ip (tcp_fields s (0 ∷ 0 ∷ [])) in
    tcp_fields s (bytes16 csum)

-- The bytes that `SendTcpSegment` writes into `packet`.
unfoldable pub tcp_packet : ℕ → Segment → List ℕ
tcp_packet dst_ip s =
    ip_header (20 + (20 + length s.payload)) 6 s.src_ip dst_ip ++ tcp_segment dst_ip s

-- The packet of `SendTcpSegment`: `none` where it does not fit the buffer.
unfoldable pub build_ipv4_tcp : ℕ → Segment → Option (List ℕ)
build_ipv4_tcp dst_ip s =
    if ltb (20 + 20 + max_bridged_payload) (20 + (20 + length s.payload))
    then none
    else some (tcp_packet dst_ip s)
