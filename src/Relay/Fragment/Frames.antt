-- ===== src/Relay/Fragment/Frames.antt =====
-- The frames that a packet goes out in, where the socket takes them all.
use switch_lan_play_nx.Prelude.{
  ℕ, zero, suc, ◌+◌, ◌-◌, ◌*◌, ◌/◌, ◌≤◌, ◌≡◌, refl, true, some, List, [], ◌∷◌, ◌++◌, append_assoc,
  append-nil, length, take, drop, leb, if◌then◌else◌, u16, arith,
}
use switch_lan_play_nx.Prelude.{
  ltb, le→ltb, none, Bool, inl, inr, Bool-cases, if_true, if_false, ◌∙◌, ap,
}
use switch_lan_play_nx.Relay.Fragment.{
  Sender, Split, sendto, send_raw, frag_frame, part_len, send_parts, send_fragmented, send_ipv4,
  chunk, relay_mtu, type_byte, ipv4,
}

abbrev pub frames : ℕ → ℕ → ℕ → Split → List (List ℕ)
frames zero part pos f = []
frames (suc rounds) part pos f =
    frag_frame f part (take (part_len f.packet pos) (drop pos f.packet))
    ∷ frames rounds (part + 1) (pos + part_len f.packet pos) f

-- `total_part`
abbrev pub part_count : List ℕ → ℕ
part_count packet = (length packet + chunk - 1) / chunk

abbrev pub split : ℕ → List ℕ → Split
split id packet = record { packet = packet; id = id; total_part = part_count packet }

-- The frames for a packet, with the next fragment id.
abbrev packet_frames : ℕ → List ℕ → List (List ℕ)
packet_frames id packet =
    if leb (length packet) relay_mtu
    then (type_byte ipv4 ∷ packet) ∷ []
    else frames (part_count packet) 0 0 (split id packet)

-- The sender with the frames handed over.
abbrev with_frames : Sender → List (List ℕ) → Sender
with_frames s fs = record s { wire = record { sent = s.wire.sent ++ fs; refusals = [] } }

-- The relay is connected, and its socket refuses nothing.
pub record IsOpen (s : Sender) : Type 0 where
  pub connected : s.connected ≡ true
  pub accepting : s.wire.refusals ≡ []

send_raw-IsOpen :
    (s : Sender) (frame : List ℕ)
    → IsOpen s
    → send_raw s frame ≡ (with_frames s (frame ∷ []), some (length frame))
unfolding send_raw sendto
send_raw-IsOpen s frame o = rw (o.connected, o.accepting) refl

send_parts-IsOpen :
    (rounds part pos : ℕ) (f : Split) (s : Sender)
    → IsOpen s
    → send_parts rounds part pos f s ≡ (with_frames s (frames rounds part pos f), true)
unfolding send_parts
send_parts-IsOpen zero part pos f s o = ground (arith, append-nil s.wire.sent, o.accepting)
send_parts-IsOpen (suc rounds) part pos f s o = ground (
  arith,
  send_raw-IsOpen s frame o,
  send_parts-IsOpen rounds (part + 1) (pos + part_len f.packet pos) f (with_frames s (frame ∷ []))
      (record { connected = o.connected; accepting = refl }),
  append_assoc s.wire.sent (frame ∷ []) (frames rounds (part + 1) (pos + part_len f.packet pos) f),
)
  where
    frame : List ℕ
    frame = frag_frame f part (take (part_len f.packet pos) (drop pos f.packet))

-- A short packet goes out in one frame and leaves the fragment id alone; a longer one takes the
-- next id.
abbrev after_send : Sender → List ℕ → Sender
after_send s packet =
    with_frames
      (record s {
        next_frag_id =
            if leb (length packet) relay_mtu then s.next_frag_id else u16 (s.next_frag_id + 1);
      })
      (packet_frames s.next_frag_id packet)

send_fragmented-IsOpen :
    (s : Sender) (packet : List ℕ)
    → IsOpen s
    → length packet ≤ 255 * chunk
    → send_fragmented s packet ≡ (
      with_frames
          (record s { next_frag_id = u16 (s.next_frag_id + 1) })
          (frames (part_count packet) 0 0 (split s.next_frag_id packet)),
      some (length packet),
    )
unfolding send_fragmented
send_fragmented-IsOpen s packet o h =
    if_false (ltb 0xff (part_count packet)) _ _ (le→ltb 0xff (part_count packet) (omega arith))
    ∙ ap (λ (r : Sender × Bool). (r.0, if r.1 then some (length packet) else none))
        (send_parts-IsOpen (part_count packet) 0 0 (split s.next_frag_id packet)
          (record s { next_frag_id = u16 (s.next_frag_id + 1) })
          (record { connected = o.connected; accepting = o.accepting }))

-- A packet of at most 255 parts goes out whole. The result of a short one counts the type byte.
pub send_ipv4-IsOpen :
    (s : Sender) (packet : List ℕ)
    → IsOpen s
    → length packet ≤ 255 * chunk
    → send_ipv4 s packet ≡ (
      after_send s packet,
      some (if leb (length packet) relay_mtu then suc (length packet) else length packet),
    )
unfolding send_ipv4
send_ipv4-IsOpen s packet o h = elim (Bool-cases (leb (length packet) relay_mtu)) [
  | inl short ↦
      if_true s.connected _ _ o.connected
      ∙ if_true (leb (length packet) relay_mtu) _ _ short
      ∙ send_raw-IsOpen s (type_byte ipv4 ∷ packet) o
      ∙ rw short refl
  | inr long ↦
      if_true s.connected _ _ o.connected
      ∙ if_false (leb (length packet) relay_mtu) _ _ long
      ∙ send_fragmented-IsOpen s packet o h
      ∙ rw long refl
]
