-- ===== src/Bridge/VTcp/Moves.antt =====
-- What a segment can do to the connections: nothing, or one of four moves of its peer's.
use switch_lan_play_nx.Prelude.{
  ℕ, ◌≡◌, refl, ◌⊎◌, inl, inr, true, ◌&&◌, not, Option, none, some, List, arith, first,
  update_first, ◌==◌, if_elim, add32,
}
use switch_lan_play_nx.Packet.Tcp.{Segment}
use switch_lan_play_nx.Relay.Fragment.{Sender}
use switch_lan_play_nx.Bridge.VTcp.{
  VTcpConn, VTcp, PendingAccept, has_peer, is_fin, is_syn, is_rst, is_ack,
}
use switch_lan_play_nx.Bridge.VTcp.Handle.{
  offer, is_pending_from, is_free_accept, reset_by_peer, on_syn, establish, on_syn_ack,
  closed_by_peer, on_fin, awaits, ack_data, on_data, final_ack_or_data, handle_tcp_segment,
}

pub data Move : Type 0 where
  resets establishes closes sends : Move

abbrev pub moved : Move → Segment → VTcpConn → VTcpConn
moved resets s c = reset_by_peer c
moved establishes s c = establish s c
moved closes s c = closed_by_peer s c
moved sends s c = ack_data s c

-- When a move happens.
abbrev pub Guard : Move → Segment → VTcpConn → Type 0
Guard resets s c = is_rst s ≡ true
Guard establishes s c = c.syn_sent_awaiting_synack ≡ true
Guard closes s c = is_fin s ≡ true
Guard sends s c = Unit {0}

abbrev pub Effect : Segment → List VTcpConn → List VTcpConn → Type 0
Effect s conns conns' =
    (conns' ≡ conns)
    ⊎ ((m : Move) × (conns' ≡ update_first (has_peer s.src_ip) (moved m s) conns)
        × ((c : VTcpConn) → first (has_peer s.src_ip) conns ≡ some c → Guard m s c))

module _ (our_isn local_ip : ℕ) (s : Segment) (v : VTcp) (r : Sender) where
  offer-conns :
      (pending free : Option PendingAccept)
      → (offer pending free our_isn local_ip s v r).0.vtcp_conns ≡ v.vtcp_conns
  offer-conns (some p) free = refl
  offer-conns none none = refl
  offer-conns none (some p) = refl

  pub on_syn-conns :
      (c : Option VTcpConn) → (on_syn our_isn local_ip s c v r).0.vtcp_conns ≡ v.vtcp_conns
  on_syn-conns (some c) = refl
  on_syn-conns none =
      offer-conns (first (is_pending_from s.src_ip) v.pending_accepts)
        (first is_free_accept v.pending_accepts)

  abbrev After : VTcp × Sender → Type 0
  After result = Effect s v.vtcp_conns result.0.vtcp_conns

  on_syn_ack-After :
      (c : Option VTcpConn)
      → first (has_peer s.src_ip) v.vtcp_conns ≡ c
      → After (on_syn_ack local_ip s c v r)
  on_syn_ack-After none at = inl refl
  on_syn_ack-After (some c) at =
      if_elim After (c.syn_sent_awaiting_synack && s.ack == add32 c.our_isn 1) _ _
        (λ waits. inr (establishes, refl, λ c' at'. ground (arith, at, at', waits))) (λ _. inl refl)

  on_fin-After : (c : Option VTcpConn) → is_fin s ≡ true → After (on_fin local_ip s c v r)
  on_fin-After none fin = inl refl
  on_fin-After (some c) fin = inr (closes, refl, λ _ _. fin)

  on_data-After : (c : Option VTcpConn) → After (on_data local_ip s c v r)
  on_data-After none = inl refl
  on_data-After (some c) = inr (sends, refl, λ _ _. tt)

  final_ack_or_data-After :
      (p : Option PendingAccept) (c : Option VTcpConn)
      → After (final_ack_or_data p local_ip s c v r)
  final_ack_or_data-After none c = on_data-After c
  final_ack_or_data-After (some p) c = inl refl

  -- Whatever the segment, the connections of the owner stay as they are, or its peer's connection
  -- makes one move.
  pub handle_tcp_segment-Effect : After (handle_tcp_segment true our_isn local_ip s v r)
  unfolding handle_tcp_segment
  handle_tcp_segment-Effect =
      if_elim After (is_rst s) _ _ (λ rst. inr (resets, refl, λ _ _. rst))
        (λ _.
          if_elim After (is_syn s && not (is_ack s)) _ _ (λ _. inl (on_syn-conns c))
            (λ _.
              if_elim After (is_syn s && is_ack s) _ _ (λ _. on_syn_ack-After c refl)
                (λ _. if_elim After (is_fin s) _ _ (on_fin-After c) (λ _.
                  if_elim After (not (is_ack s)) _ _ (λ _. inl refl)
                    (λ _. final_ack_or_data-After (first (awaits s) v.pending_accepts) c)))))
    where
      c : Option VTcpConn
      c = first (has_peer s.src_ip) v.vtcp_conns
