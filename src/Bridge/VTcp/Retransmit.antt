-- ===== src/Bridge/VTcp/Retransmit.antt =====
-- `CheckDataRetransmits` of source/bsd/bsd_bridge_service.cpp.
use switch_lan_play_nx.Prelude.{
  ℕ, ◌+◌, false, ◌||◌, not, List, [], ◌∷◌, ltb, leb, if◌then◌else◌, sub64,
}
use switch_lan_play_nx.Packet.Tcp.{Segment}
use switch_lan_play_nx.Relay.Fragment.{Sender}
use switch_lan_play_nx.Bridge.VTcp.{VTcpConn, ldn_control_port, tcp_psh, tcp_ack, send_tcp_segment}

abbrev pub data_retransmit_interval_ms : ℕ
data_retransmit_interval_ms = 100

abbrev pub max_data_retransmits : ℕ
max_data_retransmits = 6

-- The unacknowledged segment as it goes out (again).
abbrev pub data_segment : ℕ → ℕ → VTcpConn → List ℕ → Segment
data_segment local_ip seq c payload = record {
  src_ip = local_ip;
  src_port = ldn_control_port;
  dst_port = c.peer_port;
  seq = seq;
  ack = c.their_seq;
  flags = tcp_psh + tcp_ack;
  payload = payload;
}

-- The body of the loop of `CheckDataRetransmits` at time `now`.
unfoldable pub retransmit_conn : ℕ → ℕ → VTcpConn → Sender → VTcpConn × Sender
retransmit_conn local_ip now c r =
    let again : VTcpConn = record c {
      retransmit_count = c.retransmit_count + 1;
      last_send_tick_ms = now;
    } in
    if not c.used || (not c.established || not c.has_unacked_data)
    then (c, r)
    else if ltb (sub64 now c.last_send_tick_ms) data_retransmit_interval_ms
    then (c, r)
    else if leb max_data_retransmits c.retransmit_count
    then (record c { has_unacked_data = false }, r)
    else (
      again,
      (send_tcp_segment r c.peer_ip (data_segment local_ip c.unacked_seq c c.unacked_data)).0,
    )

unfoldable pub check_data_retransmits : ℕ → ℕ → List VTcpConn → Sender → List VTcpConn × Sender
check_data_retransmits local_ip now [] r = ([], r)
check_data_retransmits local_ip now (c ∷ conns) r =
    let (c', r₁) = retransmit_conn local_ip now c r in
    let (conns', r₂) = check_data_retransmits local_ip now conns r₁ in (c' ∷ conns', r₂)
