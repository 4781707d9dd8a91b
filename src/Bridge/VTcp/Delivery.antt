-- ===== src/Bridge/VTcp/Delivery.antt =====
-- What becomes of one segment of a peer: taken and acknowledged, left for the peer to send again,
-- or lost after a FIN.
use switch_lan_play_nx.Prelude.{
  ℕ, ◌+◌, ◌<◌, ◌≡◌, refl, ap, ap₂, ◌∙◌, ◌≢◌, inl, inr, Bool, true, false, ◌&&◌, not, none, some,
  List, ◌++◌, arith, first, update_first, first-passes, first-update_first, leb, if◌then◌else◌,
  if_true, if_false, length, add32,
}
use switch_lan_play_nx.Packet.Tcp.{Segment}
use switch_lan_play_nx.Relay.Fragment.{Sender}
use switch_lan_play_nx.Bridge.VTcp.{
  VTcpConn, VTcp, has_peer, is_fin, is_syn, is_rst, is_ack, vtcp_inbox_cap, tcp_ack, answer,
}
use switch_lan_play_nx.Bridge.VTcp.Handle.{
  handle_tcp_segment, on_fin, on_data, closed_by_peer, final_ack_or_data, ack_data, accepts, settle,
  awaits,
}
use switch_lan_play_nx.Bridge.VTcp.Moves.{
  Move, resets, establishes, closes, sends, moved, Effect, handle_tcp_segment-Effect,
}

-- A segment with an ACK and none of SYN, FIN, RST.
abbrev PlainAck : Segment → Type 0
PlainAck s = (is_rst s ≡ false) × (is_syn s ≡ false) × (is_fin s ≡ false) × (is_ack s ≡ true)

module _ (our_isn local_ip : ℕ) (s : Segment) (v : VTcp) (r : Sender) (c : VTcpConn)
    (at : first (has_peer s.src_ip) v.vtcp_conns ≡ some c) where
  passes : has_peer s.src_ip c ≡ true
  passes = first-passes (has_peer s.src_ip) v.vtcp_conns c at

  -- A plain ACK that finishes no handshake goes to the data branch.
  handle-on_data :
      PlainAck s
      → first (awaits s) v.pending_accepts ≡ none
      → handle_tcp_segment true our_isn local_ip s v r ≡ on_data local_ip s (some c) v r
  unfolding handle_tcp_segment
  handle-on_data (not_rst, not_syn, not_fin, ack) none_waits =
      if_false (is_rst s) _ _ not_rst
      ∙ if_false (is_syn s && not (is_ack s)) _ _ (ground (arith, not_syn))
      ∙ if_false (is_syn s && is_ack s) _ _ (ground (arith, not_syn))
      ∙ if_false (is_fin s) _ _ not_fin
      ∙ if_false (not (is_ack s)) _ _ (ap not ack)
      ∙ ap₂ (λ p x. final_ack_or_data p local_ip s x v r) none_waits at

  has_room : Bool
  has_room = leb (length c.inbox + length s.payload) vtcp_inbox_cap

  accepts-room :
      c.established ≡ true
      → 0 < length s.payload
      → s.seq ≡ c.their_seq
      → accepts s (settle s c) ≡ has_room
  unfolding has_room
  accepts-room established some_bytes same = ground arith

  ack_data-passes : has_peer s.src_ip (ack_data s c) ≡ true
  ack_data-passes = ground (arith, passes)

  -- The peer of an established connection sends the bytes that come next, at least one, in a plain
  -- ACK that finishes no handshake. If the inbox has room they are appended, the next byte expected
  -- moves past them and an ACK for it goes out; otherwise inbox and next byte stay, and nothing is
  -- sent.
  pub handle_tcp_segment-takes :
      PlainAck s
      → first (awaits s) v.pending_accepts ≡ none
      → c.established ≡ true
      → 0 < length s.payload
      → s.seq ≡ c.their_seq
      → let room = leb (length c.inbox + length s.payload) vtcp_inbox_cap in
        let (v', r') = handle_tcp_segment true our_isn local_ip s v r in
        (c' : VTcpConn) × (first (has_peer s.src_ip) v'.vtcp_conns ≡ some c')
        × (c'.inbox ≡ (if room then c.inbox ++ s.payload else c.inbox))
        × (c'.their_seq ≡ (if room then add32 c.their_seq (length s.payload) else c.their_seq))
        × (r' ≡ (
            if room
            then answer r local_ip s c.our_seq (add32 c.their_seq (length s.payload)) tcp_ack
            else r))
  unfolding has_room
  handle_tcp_segment-takes plain none_waits established some_bytes same = (
    ack_data s c,
    ap (λ (x : VTcp × Sender). first (has_peer s.src_ip) x.0.vtcp_conns)
          (handle-on_data plain none_waits)
        ∙ first-update_first (has_peer s.src_ip) (ack_data s) v.vtcp_conns c at ack_data-passes,
    ground (arith, accepts-room established some_bytes same),
    ground (arith, accepts-room established some_bytes same),
    ap (λ (x : VTcp × Sender). x.1) (handle-on_data plain none_waits)
        ∙ ap
            (λ b.
              if b
              then answer r local_ip s c.our_seq (add32 c.their_seq (length s.payload)) tcp_ack
              else r)
            (accepts-room established some_bytes same),
  )

  after_fin :
      is_rst s ≡ false
      → is_syn s ≡ false
      → is_fin s ≡ true
      → handle_tcp_segment true our_isn local_ip s v r ≡ on_fin local_ip s (some c) v r
  unfolding handle_tcp_segment
  after_fin not_rst not_syn fin =
      if_false (is_rst s) _ _ not_rst
      ∙ if_false (is_syn s && not (is_ack s)) _ _ (ground (arith, not_syn))
      ∙ if_false (is_syn s && is_ack s) _ _ (ground (arith, not_syn))
      ∙ if_true (is_fin s) _ _ fin
      ∙ ap (λ x. on_fin local_ip s x v r) at

module _ (local_ip : ℕ) (s d : Segment) (c : VTcpConn) (same_peer : d.src_ip ≡ s.src_ip)
    (apart : d.seq ≢ add32 s.seq 1) where
  moved-inbox : (m : Move) → (moved m d (closed_by_peer s c)).inbox ≡ c.inbox
  moved-inbox resets = refl
  moved-inbox establishes = refl
  moved-inbox closes = refl
  moved-inbox sends = ground arith

  moved-peer : (m : Move) (x : VTcpConn) → has_peer s.src_ip (moved m d x) ≡ has_peer s.src_ip x
  moved-peer resets x = refl
  moved-peer establishes x = refl
  moved-peer closes x = refl
  moved-peer sends x = ground arith

  Effect-inbox :
      (conns conns' : List VTcpConn)
      → first (has_peer s.src_ip) conns ≡ some (closed_by_peer s c)
      → Effect d conns conns'
      → (c' : VTcpConn) × (first (has_peer s.src_ip) conns' ≡ some c') × (c'.inbox ≡ c.inbox)
  Effect-inbox conns conns' at (inl same) =
      (closed_by_peer s c, ap (first (has_peer s.src_ip)) same ∙ at, refl)
  Effect-inbox conns conns' at (inr (m, result, guard)) = (
    moved m d (closed_by_peer s c),
    ap (first (has_peer s.src_ip)) result
        ∙ ap (λ ip. first (has_peer s.src_ip) (update_first (has_peer ip) (moved m d) conns))
            same_peer
        ∙ first-update_first (has_peer s.src_ip) (moved m d) conns (closed_by_peer s c) at (
            moved-peer m (closed_by_peer s c)
            ∙ first-passes (has_peer s.src_ip) conns (closed_by_peer s c) at),
    moved-inbox m,
  )

  -- A FIN of a connection's peer, whatever its sequence number, is acknowledged as if all before it
  -- had arrived; and of any segment that the peer sends next with another sequence number than the
  -- one after the FIN's, such as a lost segment sent again, no byte is taken.
  pub handle_tcp_segment-fin :
      (our_isn later_isn : ℕ) (v : VTcp) (r : Sender)
      → first (has_peer s.src_ip) v.vtcp_conns ≡ some c
      → is_rst s ≡ false
      → is_syn s ≡ false
      → is_fin s ≡ true
      → let (v₁, r₁) = handle_tcp_segment true our_isn local_ip s v r in
        let (v₂, r₂) = handle_tcp_segment true later_isn local_ip d v₁ r₁ in
        (r₁ ≡ answer r local_ip s c.our_seq (add32 s.seq 1) tcp_ack)
        × (c' : VTcpConn) × (first (has_peer s.src_ip) v₂.vtcp_conns ≡ some c')
        × (c'.inbox ≡ c.inbox)
  handle_tcp_segment-fin our_isn later_isn v r at not_rst not_syn fin =
      let (c', found, kept) =
        Effect-inbox v₁.vtcp_conns (handle_tcp_segment true later_isn local_ip d v₁ r₁).0.vtcp_conns
          closed (handle_tcp_segment-Effect later_isn local_ip d v₁ r₁) in
      (ap (λ (x : VTcp × Sender). x.1) step, c', found, kept)
    where
      v₁ : VTcp
      v₁ = (handle_tcp_segment true our_isn local_ip s v r).0

      r₁ : Sender
      r₁ = (handle_tcp_segment true our_isn local_ip s v r).1

      step : handle_tcp_segment true our_isn local_ip s v r ≡ on_fin local_ip s (some c) v r
      step = after_fin our_isn local_ip s v r c at not_rst not_syn fin

      closed : first (has_peer s.src_ip) v₁.vtcp_conns ≡ some (closed_by_peer s c)
      closed =
          ap (λ (x : VTcp × Sender). first (has_peer s.src_ip) x.0.vtcp_conns) step
          ∙ first-update_first (has_peer s.src_ip) (closed_by_peer s) v.vtcp_conns c at
              (first-passes (has_peer s.src_ip) v.vtcp_conns c at)
