-- ===== src/Bridge/VTcp/Dialling.antt =====
-- What becomes of a connection that `Connect` began, whatever segments arrive before it is
-- accepted, closed or given up.
use switch_lan_play_nx.Prelude.{
  ℕ, ◌≡◌, refl, sym, ap, subst, ◌∙◌, ◌⊎◌, inl, inr, Bool, true, false, ◌&&◌, ◌||◌, not, Option,
  none, some, List, [], ◌∷◌, arith, first, update_first, first-passes, update_first-none,
  first-update_first, first-update_first_ne, ◌==◌, Bool-cases, Option-cases, if_elim, add32,
}
use switch_lan_play_nx.Packet.Tcp.{Segment}
use switch_lan_play_nx.Relay.Fragment.{Sender}
use switch_lan_play_nx.Bridge.VTcp.{
  VTcpConn, VTcp, PendingAccept, has_peer, is_fin, is_syn, is_rst, is_ack,
}
use switch_lan_play_nx.Bridge.VTcp.Handle.{
  reset_by_peer, establish, on_syn, on_syn_ack, closed_by_peer, on_fin, awaits, ack_data,
  final_ack_or_data, handle_tcp_segment,
}
use switch_lan_play_nx.Bridge.VTcp.Moves.{
  Move, resets, establishes, closes, sends, moved, Effect, on_syn-conns, handle_tcp_segment-Effect,
}

-- Segments arrive one after the other, each with the random number at hand.
unfoldable pub arrive_all : ℕ → List (ℕ × Segment) → VTcp → Sender → VTcp × Sender
arrive_all local_ip [] v r = (v, r)
arrive_all local_ip ((our_isn, s) ∷ more) v r =
    let (v', r') = handle_tcp_segment true our_isn local_ip s v r in arrive_all local_ip more v' r'

-- A segment of `peer` that passes a test.
abbrev pub comes : ℕ → (Segment → Bool) → List (ℕ × Segment) → Bool
comes peer test [] = false
comes peer test ((our_isn, s) ∷ more) = (s.src_ip == peer && test s) || comes peer test more

-- A SYN-ACK that acknowledges the SYN with number `isn`.
abbrev pub acknowledges : ℕ → Segment → Bool
acknowledges isn s = not (is_rst s) && (is_syn s && (is_ack s && s.ack == add32 isn 1))

-- A RST, or a FIN without SYN.
abbrev pub ends : Segment → Bool
ends s = is_rst s || (not (is_syn s) && is_fin s)

or_false : (b : Bool) → (b || false) ≡ b
or_false true = refl
or_false false = refl

or_assoc : (a b c : Bool) → ((a || b) || c) ≡ (a || (b || c))
or_assoc true b c = refl
or_assoc false b c = refl

module _ (peer isn fd : ℕ) (waiting : List ℕ) where
  -- The connection of `peer`, as it is after it was answered or not, and ended or not.
  abbrev Is : Bool → Bool → VTcpConn → Type 0
  Is answered ended c =
      (has_peer peer c ≡ true)
      × (c.fd ≡ fd)
      × (c.our_isn ≡ isn)
      × (c.established ≡ answered)
      × (c.syn_sent_awaiting_synack ≡ not answered)
      × (c.peer_closed ≡ ended)
      × ((answered ≡ true) ⊎ (c.inbox ≡ waiting))
      × ((answered ≡ false) ⊎ (c.our_seq ≡ add32 isn 1))

  abbrev At : Bool → Bool → List VTcpConn → Type 0
  At answered ended conns =
      (c : VTcpConn) × (first (has_peer peer) conns ≡ some c) × Is answered ended c

  writes :
      (answered ended : Bool) (f : VTcpConn → VTcpConn) (conns : List VTcpConn) (c : VTcpConn)
      → first (has_peer peer) conns ≡ some c
      → Is answered ended (f c)
      → At answered ended (update_first (has_peer peer) f conns)
  writes answered ended f conns c at is =
      (f c, first-update_first (has_peer peer) f conns c at is.0, is)

  ack_data-Is :
      (answered ended : Bool) (s : Segment) (c : VTcpConn)
      → Is answered ended c
      → Is answered ended (ack_data s c)
  ack_data-Is answered ended s c is = ground arith

module _ (isn fd local_ip draw : ℕ) (waiting : List ℕ) (s : Segment) (v : VTcp) (r : Sender)
    (c : VTcpConn) (at : first (has_peer s.src_ip) v.vtcp_conns ≡ some c) (answered ended : Bool)
    (is : Is s.src_ip isn fd waiting answered ended c) where
  abbrev After : VTcp × Sender → Type 0
  After result =
      At s.src_ip isn fd waiting (answered || acknowledges isn s) (ended || ends s)
        result.0.vtcp_conns

  same :
      Is s.src_ip isn fd waiting (answered || acknowledges isn s) (ended || ends s) c
      → (x : VTcp × Sender) → x.0.vtcp_conns ≡ v.vtcp_conns
      → After x
  same still x e = (c, ap (first (has_peer s.src_ip)) e ∙ at, still)

  syn_ack-After :
      is_rst s ≡ false → (is_syn s && is_ack s) ≡ true → After (on_syn_ack local_ip s (some c) v r)
  syn_ack-After no_rst syn_ack =
      if_elim After (c.syn_sent_awaiting_synack && s.ack == add32 c.our_isn 1) _ _
        (λ waits. writes s.src_ip isn fd waiting _ _ (establish s) v.vtcp_conns c at (ground arith))
        (λ other. same (ground arith) (v, r) refl)

  ack-After :
      (p : Option PendingAccept)
      → is_rst s ≡ false
      → is_syn s ≡ false
      → is_fin s ≡ false
      → After (final_ack_or_data p local_ip s (some c) v r)
  ack-After (some p) no_rst no_syn no_fin =
      same (ground arith) (final_ack_or_data (some p) local_ip s (some c) v r) refl
  ack-After none no_rst no_syn no_fin =
      writes s.src_ip isn fd waiting _ _ (ack_data s) v.vtcp_conns c at
        (ack_data-Is s.src_ip isn fd waiting _ _ s c (ground arith))

  own : After (handle_tcp_segment true draw local_ip s v r)
  unfolding handle_tcp_segment
  own =
      if_elim After (is_rst s) _ _
        (λ rst. writes s.src_ip isn fd waiting _ _ reset_by_peer v.vtcp_conns c at (ground arith))
        (λ no_rst.
          if_elim After (is_syn s && not (is_ack s)) _ _
            (λ syn.
              same (ground arith) (on_syn draw local_ip s found v r)
                (on_syn-conns draw local_ip s v r found))
            (λ no_syn.
              if_elim After (is_syn s && is_ack s) _ _
                (λ syn_ack.
                  subst (λ x. After (on_syn_ack local_ip s x v r)) (sym at)
                    (syn_ack-After no_rst syn_ack))
                (λ no_syn_ack.
                  if_elim After (is_fin s) _ _
                    (λ fin.
                      subst (λ x. After (on_fin local_ip s x v r)) (sym at)
                        (writes s.src_ip isn fd waiting _ _ (closed_by_peer s) v.vtcp_conns c at
                          (ground arith)))
                    (λ no_fin.
                      if_elim After (not (is_ack s)) _ _ (λ no_ack. same (ground arith) (v, r) refl)
                        (λ ack.
                          subst
                            (λ x. After (
                              final_ack_or_data (first (awaits s) v.pending_accepts) local_ip s x v
                                r))
                            (sym at)
                            (ack-After (first (awaits s) v.pending_accepts) no_rst (ground arith)
                              no_fin))))))
    where
      found : Option VTcpConn
      found = first (has_peer s.src_ip) v.vtcp_conns

module _ (peer isn fd local_ip : ℕ) (waiting : List ℕ) where
  moved-peer :
      (m : Move) (s : Segment) (x : VTcpConn) → has_peer peer (moved m s x) ≡ has_peer peer x
  moved-peer resets s x = refl
  moved-peer establishes s x = refl
  moved-peer closes s x = refl
  moved-peer sends s x = ground arith

  -- A segment of another address leaves the connection as it is.
  foreign :
      (answered ended : Bool) (s : Segment) (conns conns' : List VTcpConn)
      → (s.src_ip == peer) ≡ false
      → Effect s conns conns'
      → At peer isn fd waiting answered ended conns
      → At peer isn fd waiting answered ended conns'
  foreign answered ended s conns conns' other (inl kept) (c, at, is) =
      (c, ap (first (has_peer peer)) kept ∙ at, is)
  foreign answered ended s conns conns' other (inr (m, result, guard)) (c, at, is) =
      elim (Option-cases (first (has_peer s.src_ip) conns)) [
        | inl absent ↦ (
          c,
          ap (first (has_peer peer))
                (result ∙ update_first-none (has_peer s.src_ip) (moved m s) conns absent)
              ∙ at,
          is,
        )
        | inr (a, found) ↦ (
          c,
          ap (first (has_peer peer)) result
              ∙ first-update_first_ne (has_peer s.src_ip) (has_peer peer) (moved m s) conns a c
                  found (moved-peer m s a) at (ground arith),
          is,
        )
      ]

  arrives-At :
      (answered ended : Bool) (draw : ℕ) (s : Segment) (v : VTcp) (r : Sender)
      → At peer isn fd waiting answered ended v.vtcp_conns
      → At peer isn fd waiting
          (answered || (s.src_ip == peer && acknowledges isn s))
          (ended || (s.src_ip == peer && ends s))
          (handle_tcp_segment true draw local_ip s v r).0.vtcp_conns
  arrives-At answered ended draw s v r before = elim (Bool-cases (s.src_ip == peer)) [
    | inl from_peer ↦ subst Result (sym from_peer) (mine (ground arith) before)
    | inr other ↦ subst Result (sym other) (
        subst (λ x. At peer isn fd waiting x (ended || false) conns') (sym (or_false answered))
          (subst (λ x. At peer isn fd waiting answered x conns') (sym (or_false ended))
            (foreign answered ended s v.vtcp_conns conns' other
              (handle_tcp_segment-Effect draw local_ip s v r) before)))
  ]
    where
      conns' : List VTcpConn
      conns' = (handle_tcp_segment true draw local_ip s v r).0.vtcp_conns

      Result : Bool → Type 0
      Result b =
          At peer isn fd waiting (answered || (b && acknowledges isn s)) (ended || (b && ends s))
            conns'

      mine :
          s.src_ip ≡ peer
          → At peer isn fd waiting answered ended v.vtcp_conns
          → At peer isn fd waiting (answered || acknowledges isn s) (ended || ends s) conns'
      mine e h =
          subst
            (λ p.
              At p isn fd waiting answered ended v.vtcp_conns
              → At p isn fd waiting (answered || acknowledges isn s) (ended || ends s) conns')
            e (λ (c, at, is). own isn fd local_ip draw waiting s v r c at answered ended is) h

  arrive_all-At :
      (segments : List (ℕ × Segment)) (answered ended : Bool) (v : VTcp) (r : Sender)
      → At peer isn fd waiting answered ended v.vtcp_conns
      → At peer isn fd waiting
          (answered || comes peer (acknowledges isn) segments)
          (ended || comes peer ends segments)
          (arrive_all local_ip segments v r).0.vtcp_conns
  unfolding arrive_all
  arrive_all-At [] answered ended v r h =
      subst (λ x. At peer isn fd waiting x (ended || false) v.vtcp_conns) (sym (or_false answered))
        (subst (λ x. At peer isn fd waiting answered x v.vtcp_conns) (sym (or_false ended)) h)
  arrive_all-At ((draw, s) ∷ more) answered ended v r h =
      let (v', r') = handle_tcp_segment true draw local_ip s v r in
      let after = (arrive_all local_ip more v' r').0.vtcp_conns in
      let a = s.src_ip == peer && acknowledges isn s in
      let b = s.src_ip == peer && ends s in
      subst (λ x. At peer isn fd waiting x (ended || (b || comes peer ends more)) after)
        (or_assoc answered a (comes peer (acknowledges isn) more))
        (subst
          (λ x.
            At peer isn fd waiting ((answered || a) || comes peer (acknowledges isn) more) x after)
          (or_assoc ended b (comes peer ends more))
          (arrive_all-At more (answered || a) (ended || b) v' r'
            (arrives-At answered ended draw s v r h)))

-- A connection that Connect began and that is not established yet, and any segments from anybody,
-- in any order and number. The connection is established after them exactly if one of them is a
-- SYN-ACK of its peer, without RST, that acknowledges the number of the SYN that was sent, and then
-- it sends from the next number on. It is told that the peer closed exactly if it was before or one
-- of its peer's segments is a RST, or a FIN without SYN. Before it is established no byte is filed.
-- It stays at its descriptor.
pub arrive_all-dialling :
    (peer local_ip : ℕ) (segments : List (ℕ × Segment)) (v : VTcp) (r : Sender) (c : VTcpConn)
    → first (has_peer peer) v.vtcp_conns ≡ some c
    → c.syn_sent_awaiting_synack ≡ true
    → c.established ≡ false
    → let answered = comes peer (acknowledges c.our_isn) segments in
      (c' : VTcpConn) × (first (has_peer peer) (arrive_all local_ip segments v r).0.vtcp_conns
        ≡ some c')
      × (c'.established ≡ answered)
      × (c'.syn_sent_awaiting_synack ≡ not answered)
      × (c'.peer_closed ≡ (c.peer_closed || comes peer ends segments))
      × ((answered ≡ true) ⊎ (c'.inbox ≡ c.inbox))
      × ((answered ≡ false) ⊎ (c'.our_seq ≡ add32 c.our_isn 1))
      × (c'.fd ≡ c.fd)
arrive_all-dialling peer local_ip segments v r c at waits begun =
    let (c', at', is) =
      arrive_all-At peer c.our_isn c.fd local_ip c.inbox segments false c.peer_closed v r (
        c,
        at,
        (
          first-passes (has_peer peer) v.vtcp_conns c at,
          refl,
          refl,
          begun,
          waits,
          refl,
          inr refl,
          inl refl,
        ),
      ) in
    (c', at', is.3, is.4, is.5, is.6, is.7, is.1)
