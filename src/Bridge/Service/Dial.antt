-- ===== src/Bridge/Service/Dial.antt =====
-- `Connect` of source/bsd/bsd_bridge_service.cpp. Its waits are given by what each 20 ms round
-- meets outside: six attempts of 25 rounds.
use switch_lan_play_nx.Prelude.{
  ℕ, Bool, true, false, ◌&&◌, not, Option, none, some, List, [], ◌∷◌, update_first, ◌==◌,
  if◌then◌else◌, take,
}
use switch_lan_play_nx.Packet.Tcp.{Segment}
use switch_lan_play_nx.Bridge.World.{
  World, Outside, Instance, Address, Answer, answers, no_error, eio, enobufs, etimedout, is_owner,
}
use switch_lan_play_nx.Bridge.Lifecycle.{ensure_relay_connected}
use switch_lan_play_nx.Bridge.Drain.{with_sender, drain_raw_relay_queue}
use switch_lan_play_nx.Bridge.VTcp.{
  VTcpConn, minus_one, unused_conn, ldn_control_port, tcp_syn, has_fd, find_vtcp_conn_by_fd,
  alloc_vtcp_conn, send_tcp_segment, with_conns,
}
use switch_lan_play_nx.Bridge.TrackedFds.{get_tracked_type}
use switch_lan_play_nx.Bridge.Service.Forward.{request, forward}
use switch_lan_play_nx.Bridge.Service.Send.{or_zero}
use switch_lan_play_nx.Bridge.Service.Sockets.{sock_stream}

abbrev pub max_attempts : ℕ
max_attempts = 6

-- `RetryIntervalMs` by the 20 ms of a round.
abbrev pub rounds_per_attempt : ℕ
rounds_per_attempt = 25

abbrev pub dialling_conn : ℕ → Address → ℕ → VTcpConn
dialling_conn fd dst our_isn = record unused_conn {
  fd = fd;
  peer_ip = dst.ip;
  peer_port = dst.port;
  our_isn = our_isn;
  syn_sent_awaiting_synack = true;
}

abbrev pub syn_segment : ℕ → ℕ → Address → Segment
syn_segment local_ip our_isn dst = record {
  src_ip = local_ip;
  src_port = ldn_control_port;
  dst_port = dst.port;
  seq = our_isn;
  ack = 0;
  flags = tcp_syn;
  payload = [];
}

abbrev pub is_established : Option VTcpConn → Bool
is_established none = false
is_established (some c) = c.established

-- The inner loop; the outsides that it did not use are not used again.
unfoldable pub wait_established : ℕ → List Outside → Instance → World → World × Bool
wait_established fd [] i w = (w, false)
wait_established fd (o ∷ rounds) i w =
    let w' = drain_raw_relay_queue o w in
    let rest = wait_established fd rounds i w' in
    if is_established (find_vtcp_conn_by_fd (is_owner i w') fd w'.vtcp.vtcp_conns)
    then (w', true)
    else rest

-- The outer loop over the attempts that are left.
unfoldable pub attempts : ℕ → ℕ → Address → List (List Outside) → Instance → World → World × Bool
attempts fd our_isn dst [] i w = (w, false)
attempts fd our_isn dst (rounds ∷ more) i w =
    let w₁ =
      with_sender w
        (send_tcp_segment w.relay.sender dst.ip (syn_segment i.bridged_local_ip our_isn dst)).0 in
    let (w₂, established) = wait_established fd (take rounds_per_attempt rounds) i w₁ in
    let rest = attempts fd our_isn dst more i w₂ in if established then (w₂, true) else rest

abbrev pub dialled : ℕ → Instance → World × Bool → World × Answer
dialled fd i (w, true) = (w, answers 0 no_error)
dialled fd i (w, false) =
    let given_up : World = record w {
      vtcp = with_conns w.vtcp (update_first (has_fd fd) (λ _. unused_conn) w.vtcp.vtcp_conns);
    } in
    ((if is_owner i w then given_up else w), answers minus_one etimedout)

abbrev pub dial_with :
    ℕ
    → ℕ
    → Address
    → List (List Outside)
    → Option (List VTcpConn)
    → Instance
    → World
    → World × Answer
dial_with fd our_isn dst times none i w = (w, answers minus_one enobufs)
dial_with fd our_isn dst times (some conns) i w = dialled fd i (
    attempts fd our_isn dst (take max_attempts times) i
      (record w { vtcp = with_conns w.vtcp conns }))

-- The virtual connect; `times` is what each round of each attempt meets.
unfoldable pub dial :
    Outside → ℕ → Address → List (List Outside) → Instance → World → World × Answer
dial o fd dst times i w =
    let our_isn = o.random 0 in
    let (w₁, up) = ensure_relay_connected o w in
    if not up
    then (w₁, answers minus_one eio)
    else dial_with fd our_isn dst times
        (alloc_vtcp_conn (is_owner i w₁) (dialling_conn fd dst our_isn) w₁.vtcp.vtcp_conns) i w₁

unfoldable pub connect_fd :
    Outside → ℕ → Option Address → List ℕ → List (List Outside) → Instance → World → World × Answer
connect_fd o fd address addr times i w =
    let dst = or_zero address in
    if get_tracked_type fd i.tracked == sock_stream && dst.port == ldn_control_port
    then dial o fd dst times i w
    else forward o (request 14 (fd ∷ []) (addr ∷ [])) w
