-- ===== src/Bridge/VTcp/Stream.antt =====
-- The receiving side of a virtual TCP connection is a byte stream: whatever segments arrive in
-- whatever order, what was read and what waits is a beginning of what the peer wrote.
use switch_lan_play_nx.Prelude.{
  ℕ, ◌+◌, ◌%◌, ◌^◌, ◌≤◌, ◌<◌, min, ◌≡◌, refl, sym, ap, ap₂, subst, ◌∙◌, inl, inr, Bool, true, false,
  none, some, List, [], ◌∷◌, ◌++◌, append-nil, append_assoc, arith, first, update_first, ◌==◌,
  if◌then◌else◌, Bool-cases, if_true, if_false, length, take, drop, length-append, length-take,
  take-append-drop, take-append, take-add, take-take,
}
use switch_lan_play_nx.Packet.Tcp.{Segment}
use switch_lan_play_nx.Relay.Fragment.{Sender}
use switch_lan_play_nx.Bridge.VTcp.{
  VTcpConn, VTcp, has_fd, has_peer, is_fin, with_conns, delivered, undelivered,
}
use switch_lan_play_nx.Bridge.VTcp.Handle.{
  reset_by_peer, handle_tcp_segment, ack_data, accepts, filed, settle,
}
use switch_lan_play_nx.Bridge.VTcp.Lookup.{
  Holds, KeepsAddress, update-own, update-own_fd, update-other, has_peer-other, has_fd-other,
}
use switch_lan_play_nx.Bridge.VTcp.Moves.{
  Move, resets, establishes, closes, sends, moved, Guard, Effect, handle_tcp_segment-Effect,
}

-- Of the stream whose first byte has sequence number `base`, `n` bytes have arrived.
abbrev InOrder : List ℕ → ℕ → List ℕ → VTcpConn → Type 0
InOrder stream base got c =
    (n : ℕ) × (n ≤ length stream)
    × (c.their_seq ≡ (base + n) % 2 ^ 32)
    × (got ++ c.inbox ≡ take n stream)

-- A segment that carries bytes of the stream at their place.
abbrev Genuine : List ℕ → ℕ → Segment → Type 0
Genuine stream base s =
    (o : ℕ) × (o + length s.payload ≤ length stream)
    × (s.seq ≡ (base + o) % 2 ^ 32)
    × (s.payload ≡ take (length s.payload) (drop o stream))

accepts-seq : (s : Segment) (c : VTcpConn) → accepts s c ≡ true → s.seq ≡ c.their_seq
accepts-seq s c h = ground arith

module _ (stream : List ℕ) (base : ℕ) (short : length stream < 2 ^ 32) where
  filed-InOrder :
      (got : List ℕ) (s : Segment) (c : VTcpConn)
      → Genuine stream base s
      → InOrder stream base got c
      → s.seq ≡ c.their_seq
      → InOrder stream base got (filed s c)
  filed-InOrder got s c (o, fits, seq, bytes) (n, n_in, their, all) same = (
    n + length s.payload,
    omega arith,
    omega arith,
    sym (append_assoc got c.inbox s.payload)
        ∙ ap₂ ◌++◌ all (bytes ∙ ap (λ k. take (length s.payload) (drop k stream)) at)
        ∙ sym (take-add n (length s.payload) stream),
  )
    where
      at : o ≡ n
      at = omega arith

  settle-InOrder :
      (got : List ℕ) (s : Segment) (c : VTcpConn)
      → InOrder stream base got c
      → InOrder stream base got (settle s c)
  settle-InOrder got s c h = ground arith

  ack_data-InOrder :
      (got : List ℕ) (s : Segment) (c : VTcpConn)
      → Genuine stream base s
      → InOrder stream base got c
      → InOrder stream base got (ack_data s c)
  ack_data-InOrder got s c g h = elim (Bool-cases (accepts s (settle s c))) [
    | inl accepted ↦
        subst (InOrder stream base got)
          (sym (if_true (accepts s (settle s c)) (filed s (settle s c)) (settle s c) accepted))
          (filed-InOrder got s (settle s c) g settled (accepts-seq s (settle s c) accepted))
    | inr refused ↦
        subst (InOrder stream base got)
          (sym (if_false (accepts s (settle s c)) (filed s (settle s c)) (settle s c) refused))
          settled
  ]
    where
      settled : InOrder stream base got (settle s c)
      settled = settle-InOrder got s c h

-- What happens to the state: a segment arrives (with the random number at hand), or a descriptor
-- is read into a buffer of some size.
pub data Event : Type 0 where
  arrives : ℕ → Segment → Event
  reads : ℕ → ℕ → Event

-- The bytes that a read of `fd` hands out.
abbrev read_bytes : ℕ → ℕ → List VTcpConn → List ℕ
read_bytes fd size conns = elim (first (has_fd fd) conns) [ none ↦ [] | some c ↦ delivered size c ]

unfoldable pub happens : ℕ → Event → VTcp → Sender → VTcp × Sender
happens local_ip (arrives our_isn s) v r = handle_tcp_segment true our_isn local_ip s v r
happens local_ip (reads fd size) v r =
    (with_conns v (update_first (has_fd fd) (undelivered size) v.vtcp_conns), r)

-- What reading `fd` gives over a run.
unfoldable pub read_all : ℕ → ℕ → List Event → VTcp → Sender → List ℕ
read_all fd local_ip [] v r = []
read_all fd local_ip (arrives our_isn s ∷ events) v r =
    let (v', r') = happens local_ip (arrives our_isn s) v r in read_all fd local_ip events v' r'
read_all fd local_ip (reads other size ∷ events) v r =
    let (v', r') = happens local_ip (reads other size) v r in
    let rest = read_all fd local_ip events v' r' in
    if other == fd then read_bytes fd size v.vtcp_conns ++ rest else rest

module _ (stream : List ℕ) (base : ℕ) (short : length stream < 2 ^ 32)
    (peer_ip fd local_ip : ℕ) where
  -- The connection is there, and is in order after the bytes read so far.
  abbrev Steady : List ℕ → List VTcpConn → Type 0
  Steady got conns = (c : VTcpConn) × Holds peer_ip fd conns c × InOrder stream base got c

  -- What the peer sends is genuine, and it does not close.
  abbrev pub Honest : Segment → Type 0
  Honest s = (s.src_ip ≡ peer_ip) → (is_fin s ≡ false) × Genuine stream base s

  moved-KeepsAddress : (m : Move) (s : Segment) (a : VTcpConn) → KeepsAddress a (moved m s a)
  moved-KeepsAddress resets s a = (refl, refl, refl)
  moved-KeepsAddress establishes s a = (refl, refl, refl)
  moved-KeepsAddress closes s a = (refl, refl, refl)
  moved-KeepsAddress sends s a = ground arith

  move-Steady :
      (got : List ℕ) (conns : List VTcpConn) (s : Segment) (m : Move)
      → Honest s
      → ((c : VTcpConn) → first (has_peer s.src_ip) conns ≡ some c → Guard m s c)
      → s.src_ip ≡ peer_ip
      → Steady got conns
      → Steady got (update_first (has_peer peer_ip) (moved m s) conns)
  move-Steady got conns s resets honest guard own (c, holds, order) = (
    reset_by_peer c,
    update-own peer_ip fd conns c holds reset_by_peer (refl, refl, refl, refl),
    order,
  )
  move-Steady got conns s establishes honest guard own (c, holds, order) =
      absurd (cc (guard c (ap (λ ip. first (has_peer ip) conns) own ∙ holds.0), holds.2))
  move-Steady got conns s closes honest guard own (c, holds, order) =
      absurd (cc (guard c (ap (λ ip. first (has_peer ip) conns) own ∙ holds.0), (honest own).0))
  move-Steady got conns s sends honest guard own (c, holds, order) = (
    ack_data s c,
    update-own peer_ip fd conns c holds (ack_data s) (ground arith),
    ack_data-InOrder stream base short got s c (honest own).1 order,
  )

  other-Steady :
      (got : List ℕ) (conns : List VTcpConn) (p : VTcpConn → Bool) (f : VTcpConn → VTcpConn)
      → ((c : VTcpConn) → Holds peer_ip fd conns c → p c ≡ false)
      → ((a : VTcpConn) → KeepsAddress a (f a))
      → Steady got conns
      → Steady got (update_first p f conns)
  other-Steady got conns p f apart keeps (c, holds, order) =
      (c, update-other peer_ip fd conns c holds p f (apart c holds) (λ a _. keeps a), order)

  arrives-Steady :
      (got : List ℕ) (conns conns' : List VTcpConn) (s : Segment)
      → Honest s
      → Effect s conns conns'
      → Steady got conns
      → Steady got conns'
  arrives-Steady got conns conns' s honest (inl same) steady = subst (Steady got) (sym same) steady
  arrives-Steady got conns conns' s honest (inr (m, result, guard)) steady =
      subst (Steady got) (sym result) (elim (Bool-cases (s.src_ip == peer_ip)) [
        | inl own ↦
            subst (λ ip. Steady got (update_first (has_peer ip) (moved m s) conns)) (sym (at own))
              (move-Steady got conns s m honest guard (at own) steady)
        | inr other ↦
            other-Steady got conns (has_peer s.src_ip) (moved m s)
              (λ c holds. has_peer-other peer_ip fd conns c holds s.src_ip (ground arith))
              (moved-KeepsAddress m s) steady
      ])
    where
      at : (s.src_ip == peer_ip) ≡ true → s.src_ip ≡ peer_ip
      at h = ground arith

  reads-Steady :
      (got : List ℕ) (conns : List VTcpConn) (size : ℕ)
      → Steady got conns
      → Steady (got ++ read_bytes fd size conns) (update_first (has_fd fd) (undelivered size) conns)
  reads-Steady got conns size (c, holds, (n, n_in, their, all)) = (
    undelivered size c,
    update-own_fd peer_ip fd conns c holds (undelivered size) (refl, refl, refl, refl),
    (
      n,
      n_in,
      their,
      ap (λ b. (got ++ b) ++ drop k c.inbox) read
          ∙ append_assoc got (take k c.inbox) (drop k c.inbox)
          ∙ ap (◌++◌ got) (take-append-drop k c.inbox)
          ∙ all,
    ),
  )
    where
      k : ℕ
      k = min size (length c.inbox)

      read : read_bytes fd size conns ≡ take k c.inbox
      read = rw (read_bytes, holds.1) refl

  abbrev IsBeginning : List ℕ → Type 0
  IsBeginning bytes = bytes ≡ take (length bytes) stream

  -- What was read and what waits make up a beginning of the stream, so what was read is one too.
  Steady-take : (got : List ℕ) (conns : List VTcpConn) → Steady got conns → IsBeginning got
  Steady-take got conns (c, holds, (n, n_in, their, all)) =
      sym (take-append (length got) got c.inbox refl)
      ∙ ap (take (length got)) all
      ∙ take-take (length got) n stream
          (omega (arith, ap length all, length-append got c.inbox, length-take n stream))

  abbrev pub AllHonest : List Event → Type 0
  AllHonest [] = Unit {0}
  AllHonest (arrives our_isn s ∷ events) = Honest s × AllHonest events
  AllHonest (reads other size ∷ events) = AllHonest events

  run-Steady :
      (events : List Event) (got : List ℕ) (v : VTcp) (r : Sender)
      → AllHonest events
      → Steady got v.vtcp_conns
      → IsBeginning (got ++ read_all fd local_ip events v r)
  unfolding read_all happens
  run-Steady [] got v r honest steady =
      subst IsBeginning (sym (append-nil got)) (Steady-take got v.vtcp_conns steady)
  run-Steady (arrives our_isn s ∷ events) got v r honest steady =
      let (v', r') = handle_tcp_segment true our_isn local_ip s v r in
      run-Steady events got v' r' honest.1 (
        arrives-Steady got v.vtcp_conns v'.vtcp_conns s honest.0
          (handle_tcp_segment-Effect our_isn local_ip s v r) steady)
  run-Steady (reads other size ∷ events) got v r honest steady = elim (Bool-cases (other == fd)) [
    | inl own ↦
        subst IsBeginning
          (append_assoc got bytes rest
            ∙ ap (◌++◌ got) (sym (if_true (other == fd) (bytes ++ rest) rest own)))
          (run-Steady events (got ++ bytes) v' r honest (
            subst
              (λ k. Steady (got ++ bytes) (update_first (has_fd k) (undelivered size) v.vtcp_conns))
              {x = fd} {y = other} (ground arith) (reads-Steady got v.vtcp_conns size steady)))
    | inr apart ↦
        subst IsBeginning (ap (◌++◌ got) (sym (if_false (other == fd) (bytes ++ rest) rest apart)))
          (run-Steady events got v' r honest (
            other-Steady got v.vtcp_conns (has_fd other) (undelivered size)
              (λ c holds. has_fd-other peer_ip fd v.vtcp_conns c holds other (ground arith))
              (λ a. (refl, refl, refl)) steady))
  ]
    where
      v' : VTcp
      v' = with_conns v (update_first (has_fd other) (undelivered size) v.vtcp_conns)

      bytes : List ℕ
      bytes = read_bytes fd size v.vtcp_conns

      rest : List ℕ
      rest = read_all fd local_ip events v' r

  -- A connection past its handshake expects the first byte (sequence number `base`) of a stream
  -- of less than 2^32 bytes. Whatever segments arrive from anybody, in any order and number,
  -- where those of its peer are no FINs and carry bytes of the stream at their place, and
  -- whatever descriptors are read in between: all that reading `fd` gives is a beginning of the
  -- stream.
  pub read_all-beginning :
      (events : List Event) (v : VTcp) (r : Sender) (c : VTcpConn)
      → AllHonest events
      → Holds peer_ip fd v.vtcp_conns c
      → c.inbox ≡ []
      → c.their_seq ≡ base % 2 ^ 32
      → read_all fd local_ip events v r ≡ take (length (read_all fd local_ip events v r)) stream
  read_all-beginning events v r c honest holds empty first_seq =
      run-Steady events [] v r honest (c, holds, (0, omega arith, omega arith, empty))
