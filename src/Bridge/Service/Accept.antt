-- ===== src/Bridge/Service/Accept.antt =====
-- `Accept` of source/bsd/bsd_bridge_service.cpp.
use switch_lan_play_nx.Prelude.{
  ℕ, ◌+◌, true, false, Option, none, some, List, [], ◌∷◌, first, update_first, if◌then◌else◌, u32,
  add32,
}
use switch_lan_play_nx.Bridge.World.{
  World, Outside, Instance, Answer, answers, ewouldblock, is_owner,
}
use switch_lan_play_nx.Bridge.Drain.{drain_raw_relay_queue}
use switch_lan_play_nx.Bridge.VTcp.{
  VTcpConn, PendingAccept, minus_one, unused_conn, alloc_vtcp_conn, is_own_tcp_listen_fd,
}
use switch_lan_play_nx.Bridge.TrackedFds.{track_fd}
use switch_lan_play_nx.Bridge.Service.Forward.{request, forward}
use switch_lan_play_nx.Bridge.Service.Receive.{is_ready, received}
use switch_lan_play_nx.Bridge.Service.Sockets.{sock_stream}

-- The connection that a finished handshake becomes.
abbrev pub accepted_conn : ℕ → PendingAccept → VTcpConn
accepted_conn fd p = record unused_conn {
  fd = fd;
  established = true;
  peer_ip = p.peer_ip;
  peer_port = p.peer_port;
  our_seq = add32 p.our_isn 1;
  their_seq = add32 p.their_isn 1;
}

abbrev pub accept_pending :
    ℕ → PendingAccept → Option (List VTcpConn) → Instance → World → Instance × World × Answer
accept_pending addr_size p none i w = (i, w, answers minus_one ewouldblock)
accept_pending addr_size p (some conns) i w =
    let fd = w.vtcp.next_synthetic_fd in
    (
      record i { tracked = track_fd fd sock_stream i.tracked },
      record w {
        vtcp = record w.vtcp {
          vtcp_conns = conns;
          pending_accepts =
              update_first is_ready (λ q. record q { used = false }) w.vtcp.pending_accepts;
          next_synthetic_fd = u32 (fd + 1);
        };
      },
      record (received addr_size (record { ip = p.peer_ip; port = p.peer_port }) []) { ret = fd },
    )

-- The loop over the pending accepts: where no connection is free for the first finished one, none
-- is for the others.
abbrev pub accept_ready : ℕ → Option PendingAccept → Instance → World → Instance × World × Answer
accept_ready addr_size none i w = (i, w, answers minus_one ewouldblock)
accept_ready addr_size (some p) i w =
    accept_pending addr_size p
      (alloc_vtcp_conn (is_owner i w) (accepted_conn w.vtcp.next_synthetic_fd p) w.vtcp.vtcp_conns)
      i w

unfoldable pub accept : Outside → ℕ → ℕ → Instance → World → Instance × World × Answer
accept o fd addr_size i w =
    let drained = drain_raw_relay_queue o w in
    let (w₁, answer) = forward o (request 12 (fd ∷ []) []) w in
    if is_own_tcp_listen_fd (is_owner i w) fd w.vtcp
    then accept_ready addr_size (first is_ready drained.vtcp.pending_accepts) i drained
    else (i, w₁, answer)
