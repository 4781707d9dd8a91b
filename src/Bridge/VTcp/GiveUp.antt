-- ===== src/Bridge/VTcp/GiveUp.antt =====
-- Resending ends: without an acknowledgement a segment goes out at most six more times.
use switch_lan_play_nx.Prelude.{
  ℕ, zero, suc, ◌+◌, ◌≤◌, ◌<◌, ◌≡◌, refl, ap, ◌∙◌, true, false, ◌||◌, not, List, [], ◌∷◌, arith,
  ltb, leb, if◌then◌else◌, if_true, if_false, length, sub64,
}
use switch_lan_play_nx.Relay.Fragment.{Sender}
use switch_lan_play_nx.Bridge.VTcp.{VTcpConn, send_tcp_segment}
use switch_lan_play_nx.Bridge.VTcp.Retransmit.{
  data_retransmit_interval_ms, max_data_retransmits, data_segment, retransmit_conn,
}

-- The turns of `CheckDataRetransmits` at some times, for one connection.
unfoldable pub turns : ℕ → List ℕ → VTcpConn → Sender → VTcpConn × Sender
turns local_ip [] c r = (c, r)
turns local_ip (now ∷ later) c r =
    let (c', r') = retransmit_conn local_ip now c r in turns local_ip later c' r'

-- `n` sendings of one segment.
unfoldable pub resend : ℕ → ℕ → VTcpConn → Sender → Sender
resend zero local_ip c r = r
resend (suc n) local_ip c r =
    resend n local_ip c
      (send_tcp_segment r c.peer_ip (data_segment local_ip c.unacked_seq c c.unacked_data)).0

-- The times lie the interval apart, by the 64-bit clock.
abbrev Spaced : ℕ → List ℕ → Type 0
Spaced last [] = Unit {0}
Spaced last (now ∷ later) = (data_retransmit_interval_ms ≤ sub64 now last) × Spaced now later

abbrev InFlight : VTcpConn → Type 0
InFlight c = (c.used ≡ true) × (c.established ≡ true) × (c.has_unacked_data ≡ true)

abbrev pub resent : ℕ → VTcpConn → VTcpConn
resent now c = record c { retransmit_count = c.retransmit_count + 1; last_send_tick_ms = now }

module _ (local_ip now : ℕ) (c : VTcpConn) (r : Sender) (flight : InFlight c)
    (due : data_retransmit_interval_ms ≤ sub64 now c.last_send_tick_ms) where
  due_turn : retransmit_conn local_ip now c r ≡ (
      if leb max_data_retransmits c.retransmit_count
      then (record c { has_unacked_data = false }, r)
      else (
        resent now c,
        (send_tcp_segment r c.peer_ip (data_segment local_ip c.unacked_seq c c.unacked_data)).0,
      ))
  unfolding retransmit_conn
  due_turn =
      if_false (not c.used || (not c.established || not c.has_unacked_data)) _ _ (ground arith)
      ∙ if_false (ltb (sub64 now c.last_send_tick_ms) data_retransmit_interval_ms) _ _
          (ground arith)

resend-resent :
    (n local_ip now : ℕ) (c : VTcpConn) (r : Sender)
    → resend n local_ip (resent now c) r ≡ resend n local_ip c r
unfolding resend
resend-resent zero local_ip now c r = refl
resend-resent (suc n) local_ip now c r =
    resend-resent n local_ip now c
      (send_tcp_segment r c.peer_ip (data_segment local_ip c.unacked_seq c c.unacked_data)).0

settled_turns :
    (local_ip : ℕ) (times : List ℕ) (c : VTcpConn) (r : Sender)
    → c.has_unacked_data ≡ false
    → turns local_ip times c r ≡ (c, r)
unfolding turns retransmit_conn
settled_turns local_ip [] c r h = refl
settled_turns local_ip (now ∷ later) c r h =
    ap (λ (x : VTcpConn × Sender). turns local_ip later x.0 x.1) {y = (c, r)}
      (if_true (not c.used || (not c.established || not c.has_unacked_data)) (c, r) _
        (ground arith))
    ∙ settled_turns local_ip later c r h

-- A segment in flight on an established connection, sent `6 - k` times again so far, and turns of
-- CheckDataRetransmits each at least 100 ms after the one before, more than `k` of them, with no
-- acknowledgement in between: the very same segment goes out exactly `k` more times, and then the
-- connection has no data in flight any more.
pub turns-resend :
    (local_ip k : ℕ) (times : List ℕ) (c : VTcpConn) (r : Sender)
    → InFlight c
    → c.retransmit_count + k ≡ max_data_retransmits
    → Spaced c.last_send_tick_ms times
    → k < length times
    → ((turns local_ip times c r).1 ≡ resend k local_ip c r)
      × ((turns local_ip times c r).0.has_unacked_data ≡ false)
unfolding turns resend
turns-resend local_ip k [] c r flight count spaced more = absurd (omega arith)
turns-resend local_ip zero (now ∷ later) c r flight count spaced more = (
  ap (λ (x : VTcpConn × Sender). x.1) ended,
  ap (λ (x : VTcpConn × Sender). x.0.has_unacked_data) ended,
)
  where
    given_up : VTcpConn
    given_up = record c { has_unacked_data = false }

    ended : turns local_ip (now ∷ later) c r ≡ (given_up, r)
    ended =
        ap (λ (x : VTcpConn × Sender). turns local_ip later x.0 x.1) {y = (given_up, r)}
          (due_turn local_ip now c r flight spaced.0
            ∙ if_true (leb max_data_retransmits c.retransmit_count) _ _ (ground arith))
        ∙ settled_turns local_ip later given_up r refl
turns-resend local_ip (suc k) (now ∷ later) c r flight count spaced more =
    let ih =
      turns-resend local_ip k later (resent now c) r' flight (omega arith) spaced.1 (omega arith) in
    (
      ap (λ (x : VTcpConn × Sender). x.1) again ∙ ih.0 ∙ resend-resent k local_ip now c r',
      ap (λ (x : VTcpConn × Sender). x.0.has_unacked_data) again ∙ ih.1,
    )
  where
    r' : Sender
    r' = (send_tcp_segment r c.peer_ip (data_segment local_ip c.unacked_seq c c.unacked_data)).0

    again : turns local_ip (now ∷ later) c r ≡ turns local_ip later (resent now c) r'
    again =
        ap (λ (x : VTcpConn × Sender). turns local_ip later x.0 x.1) {y = (resent now c, r')}
          (due_turn local_ip now c r flight spaced.0
            ∙ if_false (leb max_data_retransmits c.retransmit_count) _ _ (ground arith))
