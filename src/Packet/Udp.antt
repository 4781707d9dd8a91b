-- ===== src/Packet/Udp.antt =====
-- `ParseIpv4Udp` of source/bsd/bsd_bridge_service.cpp, and the datagram that `SendTo` builds.
pub mod RoundTrip
use switch_lan_play_nx.Prelude.{
  ℕ, ◌+◌, ◌-◌, ◌*◌, ◌/◌, ◌%◌, ◌^◌, Option, none, some, List, ◌∷◌, ◌++◌, Bool, ◌||◌, not, length,
  get_or, take, drop, ltb, leb, ◌==◌, if◌then◌else◌, u8, u16, be16, be32, bytes16, bytes32,
}
use switch_lan_play_nx.Packet.Checksum.{ip_header}

-- The out parameters of `ParseIpv4Udp`.
pub record Datagram : Type 0 where
  pub src_ip : ℕ
  pub dst_port : ℕ
  pub payload : List ℕ

-- `MaxBridgedPayload`, which is `VTcpInboxCap`.
abbrev pub max_bridged_payload : ℕ
max_bridged_payload = 2048

-- `(pkt[0] & 0x0F) * 4` as a `u8`.
abbrev pub header_len : List ℕ → ℕ
header_len pkt = u8 (get_or pkt 0 0 % 2 ^ 4 * 4)

abbrev pub ip_src : List ℕ → ℕ
ip_src pkt = be32 (get_or pkt 12 0) (get_or pkt 13 0) (get_or pkt 14 0) (get_or pkt 15 0)

unfoldable pub parse_ipv4_udp : List ℕ → Option Datagram
parse_ipv4_udp pkt =
    let ihl = header_len pkt in
    let udp_len = be16 (get_or pkt (ihl + 4) 0) (get_or pkt (ihl + 5) 0) in
    let payload_len = if leb 8 udp_len then udp_len - 8 else 0 in
    if ltb (length pkt) 28
    then none
    else if not (get_or pkt 9 0 == 17) || ltb (length pkt) (ihl + 8)
    then none
    else if ltb (length pkt) (ihl + udp_len)
    then none
    else some (record {
      src_ip = ip_src pkt;
      dst_port = be16 (get_or pkt (ihl + 2) 0) (get_or pkt (ihl + 3) 0);
      payload = take payload_len (drop (ihl + 8) pkt);
    })

-- `udp[0]` and `udp[1]`, which `RecvFrom` reads beside what `ParseIpv4Udp` gives.
abbrev pub udp_src_port : List ℕ → ℕ
udp_src_port pkt = be16 (get_or pkt (header_len pkt) 0) (get_or pkt (header_len pkt + 1) 0)

-- The bytes that `SendTo` writes into `packet`.
unfoldable pub udp_packet : ℕ → ℕ → ℕ → ℕ → List ℕ → List ℕ
udp_packet src_ip dst_ip src_port dst_port payload =
    ip_header (20 + 8 + length payload) 17 src_ip dst_ip
    ++ bytes16 src_port
    ++ bytes16 dst_port
    ++ bytes16 (u16 (8 + length payload))
    ++ 0 ∷ 0 ∷ payload

-- The packet of `SendTo`: `none` where it does not fit the buffer.
unfoldable pub build_ipv4_udp : ℕ → ℕ → ℕ → ℕ → List ℕ → Option (List ℕ)
build_ipv4_udp src_ip dst_ip src_port dst_port payload =
    if ltb (20 + 8 + max_bridged_payload) (20 + 8 + length payload)
    then none
    else some (udp_packet src_ip dst_ip src_port dst_port payload)
