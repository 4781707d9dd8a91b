-- ===== src/Relay/Reassembly/Parts.antt =====
-- Writing the parts of a packet into a slot, in order.
use switch_lan_play_nx.Prelude.{
  ℕ, zero, suc, ◌+◌, ◌-◌, ◌*◌, ◌^◌, ◌≤◌, ◌<◌, ◌≡◌, refl, ap, ◌∙◌, sym, Bool, true, false, not, List,
  ◌++◌, append_assoc, length, length-append, length-take, length-drop, take, drop, take_all,
  take-append, take-add, ◌==◌, ==_iff, bit_or, if◌then◌else◌, arith, leb, if◌then◌else◌, none, some,
}
use switch_lan_play_nx.Relay.Reassembly.{
  ReassemblySlot, FragHeader, buffer_len, write_at, add_part, expected_mask, accumulate, finish,
}

length-write_at :
    (buffer : List ℕ) (at : ℕ) (bytes : List ℕ)
    → at + length bytes ≤ length buffer
    → length (write_at buffer at bytes) ≡ length buffer
length-write_at buffer at bytes h = omega (
  arith,
  length-append (take at buffer) (bytes ++ drop (at + length bytes) buffer),
  length-append bytes (drop (at + length bytes) buffer),
  length-take at buffer,
  length-drop (at + length bytes) buffer,
)

-- What stood before the write, and then the bytes written.
take-write_at :
    (buffer : List ℕ) (at : ℕ) (bytes : List ℕ)
    → at + length bytes ≤ length buffer
    → take (at + length bytes) (write_at buffer at bytes) ≡ take at buffer ++ bytes
take-write_at buffer at bytes h =
    ap (take (at + length bytes))
      (sym (append_assoc (take at buffer) bytes (drop (at + length bytes) buffer)))
    ∙ take-append (at + length bytes) (take at buffer ++ bytes) _
        (omega (arith, length-append (take at buffer) bytes, length-take at buffer))

-- The facts on masks that are needed concern 32 parts at most, and are checked part by part.
every_part : (ℕ → Bool) → ℕ → Bool
every_part ok zero = true
every_part ok (suc k) = if ok k then every_part ok k else false

every_part-lt : (ok : ℕ → Bool) (n : ℕ) {k : ℕ} → k < n → every_part ok n ≡ true → ok k ≡ true
unfolding every_part
every_part-lt ok zero l e = elim l [ ]
every_part-lt ok (suc n) {k} l e = ground (arith, every_part-lt ok n {k = k})

-- Setting the next bit of a mask of ones.
next_mask : (k : ℕ) → k < 32 → bit_or (2 ^ k - 1) (2 ^ k) ≡ 2 ^ (k + 1) - 1
unfolding every_part
next_mask k h =
    (==_iff _ _).0 (every_part-lt (λ j. bit_or (2 ^ j - 1) (2 ^ j) == 2 ^ (j + 1) - 1) 32 h refl)

unfinished : ℕ → ℕ → Bool
unfinished n k = not (2 ^ k - 1 == expected_mask n)

unfinished_masks : (n k : ℕ) → n < 32 → k < n → unfinished n k ≡ true
unfolding every_part unfinished
unfinished_masks n k h l =
    every_part-lt (unfinished n) n l (every_part-lt (λ m. every_part (unfinished m) m) 32 h refl)

partial_mask : (n k : ℕ) → n < 32 → k < n → (2 ^ k - 1 == expected_mask n) ≡ false
unfolding unfinished
partial_mask n k h l = ground (arith, unfinished_masks n k h l)

-- The slot holds the first `count` parts of the packet, each of `size` bytes, and no others.
pub record Holds (packet : List ℕ) (size count : ℕ) (s : ReassemblySlot) : Type 0 where
  pub used : s.used ≡ true
  pub mask : s.part_mask ≡ 2 ^ count - 1
  pub total : s.total_len ≡ 0
  pub buffer : length s.buffer ≡ buffer_len
  pub bytes : take (count * size) s.buffer ≡ take (count * size) packet

-- The part `h.part` of the packet, which has `h.len` bytes and ends within the buffer.
pub record IsPart (packet : List ℕ) (h : FragHeader) (bytes : List ℕ) : Type 0 where
  pub cut : bytes ≡ take h.len (drop (h.part * h.pmtu) packet)
  pub len : length bytes ≡ h.len
  pub few : h.total_part < 32
  pub counted : h.part < h.total_part
  pub inside : h.part * h.pmtu + h.len ≤ buffer_len
  pub filled : 0 < h.len

module _ (packet : List ℕ) (h : FragHeader) (bytes : List ℕ) (s : ReassemblySlot)
    (part : IsPart packet h bytes) (holds : Holds packet h.pmtu h.part s) where
  mask-add_part : (add_part h bytes s).part_mask ≡ 2 ^ (h.part + 1) - 1
  unfolding add_part
  mask-add_part = ap (λ m. bit_or m (2 ^ h.part)) holds.mask ∙ next_mask h.part (omega arith)

  length-add_part : length (add_part h bytes s).buffer ≡ buffer_len
  unfolding add_part
  length-add_part = length-write_at s.buffer (h.part * h.pmtu) bytes (omega arith) ∙ holds.buffer

  bytes-add_part :
      take (h.part * h.pmtu + h.len) (add_part h bytes s).buffer
      ≡ take (h.part * h.pmtu + h.len) packet
  unfolding add_part
  bytes-add_part =
      ap (λ n. take (h.part * h.pmtu + n) (write_at s.buffer (h.part * h.pmtu) bytes))
        (sym part.len)
      ∙ take-write_at s.buffer (h.part * h.pmtu) bytes (omega arith)
      ∙ ap (λ b. b ++ bytes) holds.bytes
      ∙ ap (◌++◌ (take (h.part * h.pmtu) packet)) part.cut
      ∙ sym (take-add (h.part * h.pmtu) h.len packet)

  total-add_part_more : h.part + 1 < h.total_part → (add_part h bytes s).total_len ≡ 0
  unfolding add_part
  total-add_part_more more = ground (arith, holds.total)

  total-add_part_last :
      h.part + 1 ≡ h.total_part → (add_part h bytes s).total_len ≡ h.part * h.pmtu + h.len
  unfolding add_part
  total-add_part_last last =
      ground (arith, ap (λ n. n * h.pmtu) {x = h.total_part - 1} {y = h.part} (omega arith))

  used-add_part : (add_part h bytes s).used ≡ true
  unfolding add_part
  used-add_part = holds.used

  -- A part that is not the last is added, and nothing is handed out.
  pub accumulate_more :
      (out : ℕ)
      → h.part + 1 < h.total_part
      → h.len ≡ h.pmtu
      → (accumulate h bytes out s ≡ (add_part h bytes s, none))
        × Holds packet h.pmtu (h.part + 1) (add_part h bytes s)
  unfolding accumulate finish
  accumulate_more out more full = (
    ground (
      arith,
      mask-add_part,
      total-add_part_more more,
      partial_mask h.total_part (h.part + 1) part.few more,
    ),
    record {
      used = used-add_part;
      mask = mask-add_part;
      total = total-add_part_more more;
      buffer = length-add_part;
      bytes =
          ap (λ n. take n (add_part h bytes s).buffer) (omega arith)
          ∙ bytes-add_part
          ∙ ap (λ n. take n packet) (omega arith);
    },
  )

  -- The last part completes the packet, which is handed out if it fits.
  pub accumulate_last :
      (out : ℕ)
      → h.part + 1 ≡ h.total_part
      → h.part * h.pmtu + h.len ≡ length packet
      → accumulate h bytes out s ≡ (
        record (add_part h bytes s) { used = false },
        if leb (length packet) out then some packet else none,
      )
  unfolding accumulate finish
  accumulate_last out last end = ground (
    arith,
    mask-add_part,
    total-add_part_last last,
    bytes-add_part,
    ap (λ n. 2 ^ n - 1) last,
    take_all (length packet) packet,
  )
