-- ===== src/Bridge/VTcp/Valid.antt =====
-- The bounds of a connection's buffers and counters, and that segments, reads and resends keep them.
use switch_lan_play_nx.Prelude.{
  ℕ, ◌^◌, ◌≤◌, ◌<◌, ◌≡◌, sym, subst, inl, inr, Bool, true, ◌||◌, not, List, [], ◌∷◌, arith,
  update_first, ltb, leb, if_elim, ltb, leb, ◌||◌, length-append, sub64, if_elim, length,
  length-append, sub64,
}
use switch_lan_play_nx.Packet.Tcp.{Segment}
use switch_lan_play_nx.Relay.Fragment.{Sender}
use switch_lan_play_nx.Bridge.VTcp.{VTcpConn, VTcp, has_peer, vtcp_inbox_cap}
use switch_lan_play_nx.Bridge.VTcp.Handle.{handle_tcp_segment, settle, filed, accepts}
use switch_lan_play_nx.Bridge.VTcp.Moves.{
  Move, resets, establishes, closes, sends, moved, Effect, handle_tcp_segment-Effect,
}
use switch_lan_play_nx.Bridge.VTcp.Retransmit.{
  max_data_retransmits, data_retransmit_interval_ms, retransmit_conn, check_data_retransmits,
}

pub record ConnIsValid (c : VTcpConn) : Type 0 where
  pub inbox_fits : length c.inbox ≤ vtcp_inbox_cap
  pub unacked_fits : length c.unacked_data ≤ vtcp_inbox_cap
  pub retries : c.retransmit_count ≤ max_data_retransmits
  pub our_seq_fits : c.our_seq < 2 ^ 32
  pub their_seq_fits : c.their_seq < 2 ^ 32

abbrev pub AllValid : List VTcpConn → Type 0
AllValid [] = Unit {0}
AllValid (c ∷ conns) = ConnIsValid c × AllValid conns

pub update_first-AllValid :
    (p : VTcpConn → Bool) (f : VTcpConn → VTcpConn) (conns : List VTcpConn)
    → ((c : VTcpConn) → ConnIsValid c → ConnIsValid (f c))
    → AllValid conns
    → AllValid (update_first p f conns)
update_first-AllValid p f [] keeps valid = tt
update_first-AllValid p f (c ∷ conns) keeps valid =
    if_elim AllValid (p c) (f c ∷ conns) (c ∷ update_first p f conns)
      (λ _. (keeps c valid.0, valid.1))
      (λ _. (valid.0, update_first-AllValid p f conns keeps valid.1))

settle-ConnIsValid : (s : Segment) (c : VTcpConn) → ConnIsValid c → ConnIsValid (settle s c)
settle-ConnIsValid s c v = ground arith

filed-ConnIsValid :
    (s : Segment) (c : VTcpConn) → ConnIsValid c → accepts s c ≡ true → ConnIsValid (filed s c)
filed-ConnIsValid s c v accepted = ground (arith, length-append c.inbox s.payload)

moved-ConnIsValid :
    (m : Move) (s : Segment) (c : VTcpConn) → ConnIsValid c → ConnIsValid (moved m s c)
moved-ConnIsValid resets s c v = ground arith
moved-ConnIsValid establishes s c v = ground arith
moved-ConnIsValid closes s c v = ground arith
moved-ConnIsValid sends s c v =
    if_elim ConnIsValid (accepts s (settle s c)) (filed s (settle s c)) (settle s c)
      (filed-ConnIsValid s (settle s c) settled) (λ _. settled)
  where
    settled : ConnIsValid (settle s c)
    settled = settle-ConnIsValid s c v

retransmit_conn-ConnIsValid :
    (local_ip now : ℕ) (c : VTcpConn) (r : Sender)
    → ConnIsValid c
    → ConnIsValid (retransmit_conn local_ip now c r).0
unfolding retransmit_conn
retransmit_conn-ConnIsValid local_ip now c r v =
    if_elim Result (not c.used || (not c.established || not c.has_unacked_data)) (c, r) _ (λ _. v)
      (λ _.
        if_elim Result (ltb (sub64 now c.last_send_tick_ms) data_retransmit_interval_ms) (c, r) _
          (λ _. v)
          (λ _.
            if_elim Result (leb max_data_retransmits c.retransmit_count) _ _ (λ _. ground arith)
              (λ room. ground arith)))
  where
    Result : VTcpConn × Sender → Type 0
    Result (c', r') = ConnIsValid c'

-- Whatever the segment, its handling by the owner keeps every connection within its bounds.
pub handle_tcp_segment-AllValid :
    (our_isn local_ip : ℕ) (s : Segment) (v : VTcp) (r : Sender)
    → AllValid v.vtcp_conns
    → AllValid (handle_tcp_segment true our_isn local_ip s v r).0.vtcp_conns
handle_tcp_segment-AllValid our_isn local_ip s v r valid =
    go (handle_tcp_segment true our_isn local_ip s v r).0.vtcp_conns
      (handle_tcp_segment-Effect our_isn local_ip s v r)
  where
    go : (conns' : List VTcpConn) → Effect s v.vtcp_conns conns' → AllValid conns'
    go conns' (inl same) = subst AllValid (sym same) valid
    go conns' (inr (m, result, guard)) = subst AllValid (sym result) (
        update_first-AllValid (has_peer s.src_ip) (moved m s) v.vtcp_conns (moved-ConnIsValid m s)
          valid)

pub check_data_retransmits-AllValid :
    (local_ip now : ℕ) (conns : List VTcpConn) (r : Sender)
    → AllValid conns
    → AllValid (check_data_retransmits local_ip now conns r).0
unfolding check_data_retransmits
check_data_retransmits-AllValid local_ip now [] r valid = tt
check_data_retransmits-AllValid local_ip now (c ∷ conns) r valid = (
  retransmit_conn-ConnIsValid local_ip now c r valid.0,
  check_data_retransmits-AllValid local_ip now conns (retransmit_conn local_ip now c r).1 valid.1,
)
