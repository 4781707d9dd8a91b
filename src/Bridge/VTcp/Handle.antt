-- ===== src/Bridge/VTcp/Handle.antt =====
-- `HandleTcpSegment` of source/bsd/bsd_bridge_service.cpp, a function for each of its branches.
use switch_lan_play_nx.Prelude.{
  ℕ, ◌+◌, Bool, true, false, ◌&&◌, not, Option, none, some, ◌++◌, leb, ◌==◌, if◌then◌else◌, length,
  first, update_first, add32,
}
use switch_lan_play_nx.Packet.Tcp.{Segment}
use switch_lan_play_nx.Relay.Fragment.{Sender}
use switch_lan_play_nx.Bridge.VTcp.{
  vtcp_inbox_cap, VTcpConn, PendingAccept, VTcp, has_peer, find_vtcp_conn_by_peer, is_fin, is_syn,
  is_rst, is_ack, tcp_syn, tcp_ack, answer, with_conns,
}

abbrev pub reset_by_peer : VTcpConn → VTcpConn
reset_by_peer c = record c { peer_closed = true }

-- The branch for a RST.
abbrev on_rst : Segment → VTcp → VTcp
on_rst s v = with_conns v (update_first (has_peer s.src_ip) reset_by_peer v.vtcp_conns)

abbrev pub is_pending_from : ℕ → PendingAccept → Bool
is_pending_from ip p = p.used && p.peer_ip == ip

abbrev pub is_free_accept : PendingAccept → Bool
is_free_accept p = not p.used

abbrev pub pending_of : ℕ → Segment → PendingAccept
pending_of our_isn s = record {
  used = true;
  peer_ip = s.src_ip;
  peer_port = s.src_port;
  our_isn = our_isn;
  their_isn = s.seq;
  got_final_ack = false;
}

-- With the pending accept that the peer has already, if any, and the first free one, if any.
abbrev pub offer :
    Option PendingAccept → Option PendingAccept → ℕ → ℕ → Segment → VTcp → Sender → VTcp × Sender
offer (some _) free our_isn local_ip s v r = (v, r)
offer none none our_isn local_ip s v r = (v, r)
offer none (some _) our_isn local_ip s v r = (
  record v {
    pending_accepts = update_first is_free_accept (λ _. pending_of our_isn s) v.pending_accepts;
  },
  answer r local_ip s our_isn (add32 s.seq 1) (tcp_syn + tcp_ack),
)

-- The branch for a SYN; `our_isn` is what `GenerateRandomBytes` gives.
abbrev pub on_syn : ℕ → ℕ → Segment → Option VTcpConn → VTcp → Sender → VTcp × Sender
on_syn our_isn local_ip s (some c) v r = (v, r)
on_syn our_isn local_ip s none v r =
    offer (first (is_pending_from s.src_ip) v.pending_accepts)
      (first is_free_accept v.pending_accepts) our_isn local_ip s v r

-- The last step of a handshake that `Connect` began.
abbrev pub establish : Segment → VTcpConn → VTcpConn
establish s c = record c {
  their_seq = add32 s.seq 1;
  our_seq = add32 c.our_isn 1;
  syn_sent_awaiting_synack = false;
  established = true;
}

-- The branch for a SYN-ACK.
abbrev pub on_syn_ack : ℕ → Segment → Option VTcpConn → VTcp → Sender → VTcp × Sender
on_syn_ack local_ip s none v r = (v, r)
on_syn_ack local_ip s (some c) v r =
    if c.syn_sent_awaiting_synack && s.ack == add32 c.our_isn 1
    then (
      with_conns v (update_first (has_peer s.src_ip) (establish s) v.vtcp_conns),
      answer r local_ip s (add32 c.our_isn 1) (add32 s.seq 1) tcp_ack,
    )
    else (v, r)

abbrev pub closed_by_peer : Segment → VTcpConn → VTcpConn
closed_by_peer s c = record c { peer_closed = true; their_seq = add32 s.seq 1 }

-- The branch for a FIN.
abbrev pub on_fin : ℕ → Segment → Option VTcpConn → VTcp → Sender → VTcp × Sender
on_fin local_ip s none v r = (v, r)
on_fin local_ip s (some c) v r = (
  with_conns v (update_first (has_peer s.src_ip) (closed_by_peer s) v.vtcp_conns),
  answer r local_ip s c.our_seq (add32 s.seq 1) tcp_ack,
)

-- `p` waits for the ACK that `s` is.
abbrev pub awaits : Segment → PendingAccept → Bool
awaits s p =
    p.used && (p.peer_ip == s.src_ip && (not p.got_final_ack && s.ack == add32 p.our_isn 1))

-- The peer acknowledges the data in flight.
abbrev pub settle : Segment → VTcpConn → VTcpConn
settle s c =
    if c.has_unacked_data && s.ack == add32 c.unacked_seq (length c.unacked_data)
    then record c { has_unacked_data = false }
    else c

-- The tests before a payload is filed.
abbrev pub accepts : Segment → VTcpConn → Bool
accepts s c =
    c.established
    && (not (length s.payload == 0)
        && (s.seq == c.their_seq
            && (leb (length s.payload) vtcp_inbox_cap
                && leb (length c.inbox + length s.payload) vtcp_inbox_cap)))

abbrev pub filed : Segment → VTcpConn → VTcpConn
filed s c = record c {
  inbox = c.inbox ++ s.payload;
  their_seq = add32 c.their_seq (length s.payload);
}

-- What an ACK without SYN, FIN and RST makes of the peer's connection.
abbrev pub ack_data : Segment → VTcpConn → VTcpConn
ack_data s c = if accepts s (settle s c) then filed s (settle s c) else settle s c

abbrev pub on_data : ℕ → Segment → Option VTcpConn → VTcp → Sender → VTcp × Sender
on_data local_ip s none v r = (v, r)
on_data local_ip s (some c) v r = (
  with_conns v (update_first (has_peer s.src_ip) (ack_data s) v.vtcp_conns),
  if accepts s (settle s c)
      then answer r local_ip s c.our_seq (add32 c.their_seq (length s.payload)) tcp_ack
      else r,
)

-- The branches for an ACK alone: the last step of a handshake that waits for it, or data.
abbrev pub final_ack_or_data :
    Option PendingAccept → ℕ → Segment → Option VTcpConn → VTcp → Sender → VTcp × Sender
final_ack_or_data none local_ip s c v r = on_data local_ip s c v r
final_ack_or_data (some _) local_ip s c v r = (
  record v {
    pending_accepts =
        update_first (awaits s) (λ p. record p { got_final_ack = true }) v.pending_accepts;
  },
  r,
)

abbrev on_ack : ℕ → Segment → Option VTcpConn → VTcp → Sender → VTcp × Sender
on_ack local_ip s c v r = final_ack_or_data (first (awaits s) v.pending_accepts) local_ip s c v r

unfoldable pub handle_tcp_segment : Bool → ℕ → ℕ → Segment → VTcp → Sender → VTcp × Sender
handle_tcp_segment owner our_isn local_ip s v r =
    let c = find_vtcp_conn_by_peer owner s.src_ip v.vtcp_conns in
    if is_rst s
    then ((if owner then on_rst s v else v), r)
    else if is_syn s && not (is_ack s)
    then on_syn our_isn local_ip s c v r
    else if is_syn s && is_ack s
    then on_syn_ack local_ip s c v r
    else if is_fin s
    then on_fin local_ip s c v r
    else if not (is_ack s)
    then (v, r)
    else on_ack local_ip s c v r
