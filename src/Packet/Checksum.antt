-- ===== src/Packet/Checksum.antt =====
-- `IpChecksum` and `TcpChecksum` of source/bsd/bsd_bridge_service.cpp, and the twenty byte IPv4
-- header that `SendTcpSegment` and `SendTo` write. A byte array is a list of its bytes.
pub mod Verify
use switch_lan_play_nx.Prelude.{
  ℕ, zero, suc, ◌+◌, ◌-◌, ◌/◌, ◌%◌, ◌^◌, List, [], ◌∷◌, ◌++◌, length, get_or, ◌==◌, if◌then◌else◌,
  u8, u16, u32, add32, be16, bytes16, bytes32,
}

-- `while (sum >> 16) sum = (sum & 0xFFFF) + (sum >> 16);` on fuel.
unfoldable pub fold_sum : ℕ → ℕ → ℕ
fold_sum zero sum = sum
fold_sum (suc fuel) sum =
    let next = fold_sum fuel (add32 (sum % 2 ^ 16) (sum / 2 ^ 16)) in
    if sum / 2 ^ 16 == 0 then sum else next

-- The rounds that the loop can need on a `u32`.
abbrev pub fold_fuel : ℕ
fold_fuel = 4

-- `static_cast<u16>(~sum)` for a `u32`.
abbrev pub complement : ℕ → ℕ
complement sum = u16 (2 ^ 32 - 1 - u32 sum)

-- The loop over `header[i], header[i + 1]`, which steps over the checksum at 10.
unfoldable pub ip_sum : ℕ → ℕ → List ℕ → ℕ → ℕ
ip_sum zero i header sum = sum
ip_sum (suc rounds) i header sum =
    ip_sum rounds (i + 2) header
      (if i == 10 then sum else add32 sum (be16 (get_or header i 0) (get_or header (i + 1) 0)))

unfoldable pub ip_checksum : List ℕ → ℕ
ip_checksum header = complement (fold_sum fold_fuel (ip_sum 10 0 header 0))

-- The loop over the segment, two bytes at a time, and the odd last byte.
unfoldable pub segment_sum : List ℕ → ℕ → ℕ
segment_sum [] sum = sum
segment_sum (a ∷ []) sum = add32 sum (be16 a 0)
segment_sum (a ∷ b ∷ seg) sum = segment_sum seg (add32 sum (be16 a b))

-- The sum over the pseudo header.
unfoldable pub pseudo_sum : ℕ → ℕ → ℕ → ℕ
pseudo_sum src_ip dst_ip seg_len =
    add32
      (add32
        (add32 (add32 (add32 (u16 (src_ip / 2 ^ 16)) (u16 src_ip)) (u16 (dst_ip / 2 ^ 16)))
          (u16 dst_ip))
        6)
      (u32 seg_len)

unfoldable pub tcp_checksum : ℕ → ℕ → List ℕ → ℕ
tcp_checksum src_ip dst_ip seg =
    complement (fold_sum fold_fuel (segment_sum seg (pseudo_sum src_ip dst_ip (length seg))))

-- Bytes 0 to 19 with the checksum bytes given.
abbrev pub ip_fields : ℕ → ℕ → ℕ → ℕ → List ℕ → List ℕ
ip_fields total protocol src_ip dst_ip csum =
    0x45
    ∷ 0
    ∷ u8 (total / 2 ^ 8)
    ∷ u8 total
    ∷ 0
    ∷ 0
    ∷ 0
    ∷ 0
    ∷ 64
    ∷ protocol
    ∷ (csum ++ bytes32 src_ip ++ bytes32 dst_ip)

-- `ip_csum` is computed on the header with zeros in its place, and then written.
unfoldable pub ip_header : ℕ → ℕ → ℕ → ℕ → List ℕ
ip_header total protocol src_ip dst_ip =
    let csum = ip_checksum (ip_fields total protocol src_ip dst_ip (0 ∷ 0 ∷ [])) in
    ip_fields total protocol src_ip dst_ip (bytes16 csum)
