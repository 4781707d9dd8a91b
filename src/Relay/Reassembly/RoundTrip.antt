-- ===== src/Relay/Reassembly/RoundTrip.antt =====
-- Sending a packet and receiving its frames: `SendIpv4` against `RecvIpv4`.
use switch_lan_play_nx.Prelude.{
  ℕ, zero, suc, ◌+◌, ◌-◌, ◌*◌, ◌^◌, ◌≤◌, ◌<◌, ◌≡◌, ◌≢◌, refl, ap, ◌∙◌, sym, true, false, inl, inr,
  Bool-cases, not, Option, none, some, List, [], ◌∷◌, set, length, length-take, length-drop, take,
  drop, take_all, leb, ltb, if◌then◌else◌, arith, if_false, le→ltb, leb→le,
}
use switch_lan_play_nx.Relay.Fragment.{
  Sender, Split, relay_mtu, chunk, frag_frame, four_bytes, part_len, send_ipv4,
}
use switch_lan_play_nx.Relay.Fragment.Frames.{frames, part_count, split, IsOpen, send_ipv4-IsOpen}
use switch_lan_play_nx.Relay.Reassembly.{
  ReassemblySlot, Reassembler, FragHeader, frag_header, buffer_len, find_slot, in_group, claim,
  choose_slot, accumulate, add_part, store, reassemble_frag, Received, packet, handled, of_frag,
  dispatch_frame, recv_ipv4, recv_all,
}
use switch_lan_play_nx.Relay.Reassembly.Slots.{Chosen, found-Chosen, free-Chosen, in_group-claim}
use switch_lan_play_nx.Relay.Reassembly.Parts.{Holds, IsPart, accumulate_more, accumulate_last}

-- The header that the receiver reads from a frame.
abbrev header_of : Split → ℕ → List ℕ → FragHeader
header_of f part bytes = record {
  src_ip = four_bytes f.packet 12;
  id = f.id;
  part = part;
  total_part = f.total_part;
  len = length bytes;
  pmtu = chunk;
}

-- A whole fragment goes to the slot that is chosen for its group.
reassemble_frag-chosen :
    (r : Reassembler) (b : List ℕ) (out i : ℕ) (s : ReassemblySlot)
    → 16 ≤ length b
    → length (drop 16 b) ≡ (frag_header b).len
    → choose_slot r (frag_header b).id (frag_header b).src_ip ≡ some (i, s)
    → reassemble_frag r b out
      ≡ store r i (frag_header b).id (accumulate (frag_header b) (drop 16 b) out s)
unfolding reassemble_frag
reassemble_frag-chosen r b out i s h k e =
    if_false (ltb (length b) 16) _ _ (le→ltb (length b) 16 h)
    ∙ if_false (ltb (length (drop 16 b)) (frag_header b).len) _ _
        (le→ltb (length (drop 16 b)) (frag_header b).len (omega arith))
    ∙ rw (e, take_all (frag_header b).len (drop 16 b) (omega arith)) refl

-- A frame of type 3 that holds a header goes to `ReassembleFrag`.
recv_ipv4-frag :
    (r : Reassembler) (rest : List ℕ) (out : ℕ)
    → 16 ≤ length rest
    → length rest ≤ 16 + relay_mtu
    → recv_ipv4 r (3 ∷ rest) out ≡ of_frag (reassemble_frag r rest out)
unfolding recv_ipv4
recv_ipv4-frag r rest out h k =
    ap (dispatch_frame r out) (take_all (1 + relay_mtu + 16) (3 ∷ rest) (omega arith))
    ∙ if_false (ltb (suc (length rest)) 17) _ _ (le→ltb (suc (length rest)) 17 (omega arith))

module _ (f : Split) (part : ℕ) (bytes : List ℕ) (id : f.id < 2 ^ 16) (part_fits : part < 2 ^ 8)
    (total_fits : f.total_part < 2 ^ 8) (fits : length bytes ≤ chunk) where
  frame_rest : List ℕ
  frame_rest = drop 1 (frag_frame f part bytes)

  frag_header-frame_rest : frag_header frame_rest ≡ header_of f part bytes
  unfolding frame_rest
  frag_header-frame_rest = ground arith

  recv_ipv4-frag_frame :
      (r : Reassembler) (out i : ℕ) (s : ReassemblySlot)
      → choose_slot r f.id (four_bytes f.packet 12) ≡ some (i, s)
      → recv_ipv4 r (frag_frame f part bytes) out
        ≡ of_frag (store r i f.id (accumulate (header_of f part bytes) bytes out s))
  unfolding recv_ipv4 frame_rest
  recv_ipv4-frag_frame r out i s e =
      recv_ipv4-frag r frame_rest out (omega arith) (omega arith)
      ∙ ap of_frag (
          reassemble_frag-chosen r frame_rest out i s (omega arith)
            (sym (ap (λ (h : FragHeader). h.len) frag_header-frame_rest))
            (ap (λ (h : FragHeader). choose_slot r h.id h.src_ip) frag_header-frame_rest ∙ e)
          ∙ ap (λ (h : FragHeader). store r i h.id (accumulate h bytes out s))
              frag_header-frame_rest)

recv_all-handled :
    (r r' : Reassembler) (d : List ℕ) (ds : List (List ℕ)) (out : ℕ)
    → recv_ipv4 r d out ≡ (r', handled)
    → (recv_all r (d ∷ ds) out).1 ≡ (recv_all r' ds out).1
unfolding recv_all
recv_all-handled r r' d ds out e =
    ap
      (λ (x : Reassembler × Received). elim x.1 [
        | packet p ↦ p ∷ (recv_all x.0 ds out).1
        | _ ↦ (recv_all x.0 ds out).1
      ])
      e

recv_all_last :
    (r : Reassembler) (i id : ℕ) (t : ReassemblySlot) (d : List ℕ) (out : ℕ) (o : Option (List ℕ))
    → recv_ipv4 r d out ≡ of_frag (store r i id (t, o))
    → (recv_all r (d ∷ []) out).1 ≡ elim o [ none ↦ [] | some p ↦ p ∷ [] ]
unfolding recv_all
recv_all_last r i id t d out none e = ground (arith, e)
recv_all_last r i id t d out (some p) e = ground (arith, e)

in_group-add_part :
    (id : ℕ) (src bytes : List ℕ) (h : FragHeader) (s : ReassemblySlot)
    → in_group id src s ≡ true
    → in_group id src (add_part h bytes s) ≡ true
unfolding add_part
in_group-add_part id src bytes h s e = e

abbrev pub delivered : ℕ → List ℕ → List (List ℕ)
delivered out p = if leb (length p) out then p ∷ [] else []

-- The part at `part` of a packet that needs fragments and fits the reassembly buffer.
module _ (p : List ℕ) (id : ℕ) (id_fits : id < 2 ^ 16) (long : relay_mtu < length p)
    (short : length p ≤ buffer_len) (part : ℕ) (counted : part < part_count p) where
  abbrev piece : List ℕ
  piece = take (part_len p (part * chunk)) (drop (part * chunk) p)

  abbrev header : FragHeader
  header = header_of (split id p) part piece

  length-piece : length piece ≡ part_len p (part * chunk)
  length-piece =
      length-take (part_len p (part * chunk)) (drop (part * chunk) p)
      ∙ ground (arith, length-drop (part * chunk) p)

  piece-IsPart : IsPart p header piece
  piece-IsPart = record {
    cut = ap (λ n. take n (drop (part * chunk) p)) (sym length-piece);
    len = refl;
    few = omega arith;
    counted = counted;
    inside = ground (arith, length-piece);
    filled = ground (arith, length-piece);
  }

  abbrev frame : List ℕ
  frame = frag_frame (split id p) part piece

  recv_ipv4-frame :
      (r : Reassembler) (out i : ℕ) (s : ReassemblySlot)
      → choose_slot r id (four_bytes p 12) ≡ some (i, s)
      → recv_ipv4 r frame out ≡ of_frag (store r i id (accumulate header piece out s))
  recv_ipv4-frame =
      recv_ipv4-frag_frame (split id p) part piece id_fits (omega arith) (omega arith)
        (ground (arith, length-piece))

  -- A part in the middle is stored, and the group stays the one that is chosen.
  recv_middle :
      (r : Reassembler) (out i : ℕ) (s : ReassemblySlot)
      → part + 1 < part_count p
      → Chosen r id (four_bytes p 12) i s
      → in_group id (four_bytes p 12) s ≡ true
      → Holds p chunk part s
      → let t = add_part header piece s in
        let r' : Reassembler = record r { slots = set r.slots i t } in
        (recv_ipv4 r frame out ≡ (r', handled))
        × Chosen r' id (four_bytes p 12) i t
        × Holds p chunk (part + 1) t
  recv_middle r out i s more c g holds = (
    recv_ipv4-frame r out i s c.chosen ∙ ap (λ x. of_frag (store r i id x)) step.0,
    found-Chosen _ id (four_bytes p 12) i _
        (c.stays _ (in_group-add_part id (four_bytes p 12) piece header s g)),
    step.1,
  )
    where
      step :
          (accumulate header piece out s ≡ (add_part header piece s, none))
          × Holds p chunk (part + 1) (add_part header piece s)
      step =
          accumulate_more p header piece s piece-IsPart holds out more
            (ground (arith, length-piece))

  recv_end :
      (r : Reassembler) (out i : ℕ) (s : ReassemblySlot)
      → part + 1 ≡ part_count p
      → choose_slot r id (four_bytes p 12) ≡ some (i, s)
      → Holds p chunk part s
      → (recv_all r (frame ∷ []) out).1 ≡ delivered out p
  recv_end r out i s last c holds =
      recv_all_last r i id (record (add_part header piece s) { used = false }) frame out _
        (recv_ipv4-frame r out i s c
          ∙ ap (λ x. of_frag (store r i id x))
              (accumulate_last p header piece s piece-IsPart holds out last
                (ground (arith, length-piece))))
      ∙ (ground arith)

module _ (p : List ℕ) (id out : ℕ) (id_fits : id < 2 ^ 16) (long : relay_mtu < length p)
    (short : length p ≤ buffer_len) where
  -- All the frames from `part` on deliver the packet, if the slot holds those before.
  recv_all-frames :
      (rounds part : ℕ) (r : Reassembler) (i : ℕ) (s : ReassemblySlot)
      → part + suc rounds ≡ part_count p
      → Chosen r id (four_bytes p 12) i s
      → in_group id (four_bytes p 12) s ≡ true
      → Holds p chunk part s
      → (recv_all r (frames (suc rounds) part (part * chunk) (split id p)) out).1 ≡ delivered out p
  recv_all-frames zero part r i s e c g holds =
      recv_end p id id_fits long short part (omega arith) r out i s (omega arith) c.chosen holds
  recv_all-frames (suc rounds) part r i s e c g holds =
      let here : part < part_count p = omega arith in
      let bytes = piece p id id_fits long short part here in
      let t = add_part (header p id id_fits long short part here) bytes s in
      let r' : Reassembler = record r { slots = set r.slots i t } in
      let (now, c', holds') =
        recv_middle p id id_fits long short part here r out i s (omega arith) c g holds in
      recv_all-handled r r' (frame p id id_fits long short part here) _ out now
      ∙ ap (λ n. (recv_all r' (frames (suc rounds) (part + 1) n (split id p)) out).1)
          {x = part * chunk + part_len p (part * chunk)} {y = (part + 1) * chunk} (ground arith)
      ∙ recv_all-frames rounds (part + 1) r' i t (omega arith) c'
          (in_group-add_part id (four_bytes p 12) bytes _ s g) holds'

  first-Holds :
      (s : ReassemblySlot)
      → length s.buffer ≡ buffer_len
      → Holds p chunk 0 (claim id (four_bytes p 12) s)
  first-Holds s h = record { used = refl; mask = refl; total = refl; buffer = h; bytes = refl }

  recv_all-long :
      (r : Reassembler) (i : ℕ) (s : ReassemblySlot)
      → find_slot (in_group id (four_bytes p 12)) r.slots ≡ none
      → find_slot (λ t. not t.used) r.slots ≡ some (i, s)
      → length s.buffer ≡ buffer_len
      → (recv_all r (frames (part_count p) 0 0 (split id p)) out).1 ≡ delivered out p
  recv_all-long r i s none_yet free h =
      ap (λ n. (recv_all r (frames n 0 0 (split id p)) out).1) {x = part_count p}
        {y = suc (part_count p - 1)} (omega arith)
      ∙ recv_all-frames (part_count p - 1) 0 r i (claim id (four_bytes p 12) s) (omega arith)
          (free-Chosen r id (four_bytes p 12) i s none_yet free)
          (in_group-claim id (four_bytes p 12) s) (first-Holds s h)

-- A frame of type 1 is the packet itself.
recv_all-short :
    (r : Reassembler) (p : List ℕ) (out : ℕ)
    → length p ≤ relay_mtu
    → (recv_all r ((1 ∷ p) ∷ []) out).1 ≡ delivered out p
unfolding recv_all recv_ipv4
recv_all-short r p out h = ground (arith, take_all 1416 p)

-- A packet of at most 5600 bytes is sent over an open socket, and the frames reach a receiver that
-- has no group of this id and source under way and a free slot. Then the send succeeds, and the
-- receiver hands out that packet and nothing else, exactly when it fits the caller's buffer;
-- otherwise it hands out nothing.
pub recv_all-send_ipv4 :
    (s : Sender) (p : List ℕ) (r : Reassembler) (out i : ℕ) (slot : ReassemblySlot)
    → IsOpen s
    → s.wire.sent ≡ []
    → s.next_frag_id < 2 ^ 16
    → length p ≤ buffer_len
    → find_slot (in_group s.next_frag_id (four_bytes p 12)) r.slots ≡ none
    → find_slot (λ t. not t.used) r.slots ≡ some (i, slot)
    → length slot.buffer ≡ buffer_len
    → let (s', result) = send_ipv4 s p in
      (result ≢ none)
      × ((recv_all r s'.wire.sent out).1 ≡ (if leb (length p) out then p ∷ [] else []))
recv_all-send_ipv4 s p r out i slot o fresh id_fits fits none_yet free h =
    rw (send_ipv4-IsOpen s p o (omega arith)) (
      λ e. cc,
      rw fresh (elim (Bool-cases (leb (length p) relay_mtu)) [
        | inl short ↦ rw short (recv_all-short r p out (leb→le (length p) relay_mtu short))
        | inr long ↦ rw long (
            recv_all-long p s.next_frag_id out id_fits (ground arith) fits r i slot none_yet free h)
      ]),
    )
