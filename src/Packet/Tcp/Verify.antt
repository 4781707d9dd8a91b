-- ===== src/Packet/Tcp/Verify.antt =====
-- The TCP checksum of `SendTcpSegment` passes the receiver's check.
use switch_lan_play_nx.Prelude.{
  ℕ, ◌+◌, ◌-◌, ◌*◌, ◌/◌, ◌^◌, ◌≤◌, ◌<◌, ◌≡◌, ◌∙◌, ap, List, [], ◌∷◌, ◌++◌, length, u16, bytes16,
  be16, add32, arith,
}
use switch_lan_play_nx.Packet.Checksum.{
  fold_sum, fold_fuel, complement, segment_sum, pseudo_sum, tcp_checksum,
}
use switch_lan_play_nx.Packet.Checksum.Verify.{
  words, ones_sum, norm, total, AllWords, ones_sum-eq-norm_total, complement_lt,
  complement-fold_sum,
}
use switch_lan_play_nx.Packet.Udp.{max_bridged_payload}
use switch_lan_play_nx.Packet.Tcp.{Segment, tcp_fields, tcp_segment}

abbrev AllBytes : List ℕ → Type 0
AllBytes [] = Unit {0}
AllBytes (b ∷ bytes) = (b < 2 ^ 8) × AllBytes bytes

-- The pseudo header of RFC 793: both addresses, the protocol, the length of the segment.
abbrev pub pseudo_words : ℕ → ℕ → ℕ → List ℕ
pseudo_words src_ip dst_ip len =
    u16 (src_ip / 2 ^ 16) ∷ u16 src_ip ∷ u16 (dst_ip / 2 ^ 16) ∷ u16 dst_ip ∷ 6 ∷ len ∷ []

words-AllWords : (bytes : List ℕ) → AllBytes bytes → AllWords (words bytes)
words-AllWords [] h = tt
words-AllWords (a ∷ []) h = (omega arith, tt)
words-AllWords (a ∷ b ∷ bytes) h = (omega arith, words-AllWords bytes h.1.1)

AllWords-append : (us ws : List ℕ) → AllWords us → AllWords ws → AllWords (us ++ ws)
AllWords-append [] ws h k = k
AllWords-append (u ∷ us) ws h k = (h.0, AllWords-append us ws h.1 k)

-- On a segment of at most 64 KB the sum does not wrap.
segment_sum-eq-total :
    (bytes : List ℕ) (acc : ℕ)
    → AllBytes bytes
    → acc + 2 ^ 16 * length bytes < 2 ^ 32
    → segment_sum bytes acc ≡ acc + total (words bytes)
unfolding segment_sum
segment_sum-eq-total [] acc h k = omega arith
segment_sum-eq-total (a ∷ []) acc h k = omega arith
segment_sum-eq-total (a ∷ b ∷ bytes) acc h k =
    segment_sum-eq-total bytes (add32 acc (be16 a b)) h.1.1 (omega arith) ∙ omega arith

total_bound : (bytes : List ℕ) → AllBytes bytes → total (words bytes) ≤ 2 ^ 16 * length bytes
total_bound [] h = omega arith
total_bound (a ∷ []) h = omega arith
total_bound (a ∷ b ∷ bytes) h = omega (arith, total_bound bytes h.1.1)

tcp_checksum_lt : (src_ip dst_ip : ℕ) (seg : List ℕ) → tcp_checksum src_ip dst_ip seg < 2 ^ 16
unfolding tcp_checksum
tcp_checksum_lt src_ip dst_ip seg =
    complement_lt (fold_sum fold_fuel (segment_sum seg (pseudo_sum src_ip dst_ip (length seg))))

module _ (dst_ip : ℕ) (s : Segment) (flags : s.flags < 2 ^ 8) (payload : AllBytes s.payload)
    (fits : length s.payload ≤ max_bridged_payload) where
  seg_len : ℕ
  seg_len = 20 + length s.payload

  rest : ℕ
  rest = total (pseudo_words s.src_ip dst_ip seg_len ++ words (tcp_fields s (0 ∷ 0 ∷ [])))

  rest_lt : rest < 2 ^ 31
  unfolding rest seg_len
  rest_lt = omega (arith, total_bound s.payload payload)

  tcp_checksum-eq :
      tcp_checksum s.src_ip dst_ip (tcp_fields s (0 ∷ 0 ∷ []))
      ≡ complement (fold_sum fold_fuel rest)
  unfolding tcp_checksum rest seg_len pseudo_sum segment_sum
  tcp_checksum-eq =
      ap (λ n. complement (fold_sum fold_fuel n))
        (segment_sum-eq-total s.payload _ payload (omega arith) ∙ omega arith)

  total-tcp_fields :
      (c : ℕ)
      → c < 2 ^ 16
      → total (pseudo_words s.src_ip dst_ip seg_len ++ words (tcp_fields s (bytes16 c))) ≡ rest + c
  unfolding rest
  total-tcp_fields c h = omega arith

  -- Every segment that the bridge sends, with flags and payload made of bytes and a payload that
  -- fits, passes the receiver's check: the one's complement sum over the pseudo header and the
  -- segment, padded to whole words, is 0xffff.
  pub tcp_segment-ones_sum :
      ones_sum
        (pseudo_words s.src_ip dst_ip (20 + length s.payload) ++ words (tcp_segment dst_ip s))
        0
      ≡ 2 ^ 16 - 1
  unfolding tcp_segment seg_len
  tcp_segment-ones_sum =
      ones_sum-eq-norm_total
        (pseudo_words s.src_ip dst_ip (20 + length s.payload) ++ words (tcp_segment dst_ip s))
        (AllWords-append (pseudo_words s.src_ip dst_ip (20 + length s.payload))
          (words (tcp_segment dst_ip s)) (omega arith)
          (words-AllWords (tcp_segment dst_ip s) (ground arith)))
      ∙ ap norm (total-tcp_fields csum csum_lt)
      ∙ ap (λ n. norm (rest + n)) tcp_checksum-eq
      ∙ complement-fold_sum rest rest_lt
    where
      csum : ℕ
      csum = tcp_checksum s.src_ip dst_ip (tcp_fields s (0 ∷ 0 ∷ []))

      csum_lt : csum < 2 ^ 16
      csum_lt = tcp_checksum_lt s.src_ip dst_ip (tcp_fields s (0 ∷ 0 ∷ []))
