-- ===== src/Bridge/Service/Sockets.antt =====
-- `Bind`, `Listen` and `Close` of source/bsd/bsd_bridge_service.cpp.
use switch_lan_play_nx.Prelude.{
  ℕ, ◌+◌, ◌-◌, Bool, false, ◌&&◌, ◌||◌, not, Option, none, some, List, [], ◌∷◌, update_first, leb,
  ◌==◌, if◌then◌else◌, be32, get_or,
}
use switch_lan_play_nx.Relay.Connect.{close}
use switch_lan_play_nx.Bridge.World.{
  ensure_socket_stack, World, Outside, Instance, Address, Reply, Answer, answers, no_error,
  is_owner, dispatch, forwarded,
}
use switch_lan_play_nx.Bridge.Lifecycle.{ensure_relay_connected}
use switch_lan_play_nx.Bridge.Drain.{with_sender}
use switch_lan_play_nx.Bridge.VTcp.{
  VTcpConn, minus_one, unused_conn, ldn_control_port, tcp_fin, tcp_ack, has_fd,
  find_vtcp_conn_by_fd, is_own_tcp_listen_fd, send_tcp_segment, with_conns,
}
use switch_lan_play_nx.Bridge.VTcp.Retransmit.{data_segment}
use switch_lan_play_nx.Bridge.TrackedFds.{get_tracked_type, untrack_fd, is_negative}
use switch_lan_play_nx.Bridge.Service.Forward.{request, is_bridged}

-- `SOCK_STREAM` and `SOCK_DGRAM`
abbrev pub sock_stream : ℕ
sock_stream = 1

abbrev pub sock_dgram : ℕ
sock_dgram = 2

-- `learned_ip` after the `GetSockName` query, from the bytes of its `sockaddr_in`.
abbrev sockname_ip : Reply → ℕ
sockname_ip reply =
    if reply.rc == 0 && reply.err == 0
    then be32 (get_or reply.from 4 0) (get_or reply.from 5 0) (get_or reply.from 6 0)
        (get_or reply.from 7 0)
    else 0

-- The fallback to the address that nifm gives.
abbrev pub learned_ip : Outside → Reply → ℕ
learned_ip o reply =
    if sockname_ip reply == 0 then elim o.nifm_ip [ none ↦ 0 | some ip ↦ ip ] else sockname_ip reply

-- nifm is asked on an initialized socket stack only.
abbrev pub with_nifm : Outside → Reply → World → World
with_nifm o reply w = record w {
  background = if sockname_ip reply == 0 then ensure_socket_stack o w.background else w.background;
}

abbrev pub bridge_worthy : ℕ → ℕ → World → Bool
bridge_worthy port ip w =
    port == ldn_control_port
    || (not (w.last_bridged_local_ip == 0) && ip == w.last_bridged_local_ip)

-- `Bind` on a socket that gets bridged.
unfoldable pub bridge_socket : Outside → ℕ → ℕ → ℕ → Instance → World → Instance × World
bridge_socket o fd port ip i w =
    let counted : World = record w {
      last_bridged_local_ip = ip;
      bridged_socket_count = w.bridged_socket_count + 1;
      active_ldn_instance = if port == ldn_control_port then some i.id else w.active_ldn_instance;
    } in
    (
      record i { bridged_fd = fd; bridged_local_ip = ip; bridged_local_port = port },
      (ensure_relay_connected o counted).0,
    )

-- What `Bind` does beside forwarding the command, for an address of at least a `sockaddr_in`.
unfoldable pub bind_bridged : Outside → ℕ → ℕ → Instance → World → Instance × World
bind_bridged o fd port i w =
    let is_udp = get_tracked_type fd i.tracked == sock_dgram in
    let (asked, reply) = dispatch o (request 16 (fd ∷ []) []) w in
    let w₁ = with_nifm o reply asked in
    if is_udp
    then (if bridge_worthy port (learned_ip o reply) w₁
        then bridge_socket o fd port (learned_ip o reply) i w₁
        else (i, w₁))
    else ((if port == ldn_control_port then record i { ldn_tcp_bind_fd = fd } else i), w)

unfoldable pub bind :
    Outside → ℕ → Option Address → List ℕ → Instance → World → Instance × World × Answer
bind o fd address addr i w =
    let (w₁, reply) = dispatch o (request 13 (fd ∷ []) (addr ∷ [])) w in
    elim address [
      | none ↦ (i, w₁, forwarded reply)
      | some a ↦ (let (i₂, w₂) = bind_bridged o fd a.port i w₁ in (i₂, w₂, forwarded reply))
    ]

unfoldable pub listen : Outside → ℕ → ℕ → Instance → World → World × Answer
listen o fd backlog i w =
    let (w₁, reply) = dispatch o (request 18 (fd ∷ backlog ∷ []) []) w in
    if not (is_negative fd) && fd == i.ldn_tcp_bind_fd
    then (record w₁ { vtcp = record w₁.vtcp { tcp_listen_fd = fd } }, forwarded reply)
    else (w₁, forwarded reply)

abbrev is_synthetic : VTcpConn → Bool
is_synthetic c = not (is_negative c.fd) && leb 1000 c.fd

-- `Close` on a virtual TCP connection: a FIN, and the connection is forgotten.
abbrev pub close_conn : ℕ → Option VTcpConn → Instance → World → World
close_conn fd none i w = w
close_conn fd (some c) i w =
    let farewell = record (data_segment i.bridged_local_ip c.our_seq c []) {
      flags = tcp_fin + tcp_ack;
    } in
    let gone : World = record w {
      vtcp = with_conns w.vtcp (update_first (has_fd fd) (λ _. unused_conn) w.vtcp.vtcp_conns);
    } in
    if c.established
    then with_sender gone (send_tcp_segment w.relay.sender c.peer_ip farewell).0
    else gone

abbrev pub close_listener : ℕ → Instance → World → World
close_listener fd i w =
    if is_own_tcp_listen_fd (is_owner i w) fd w.vtcp
    then record w { vtcp = record w.vtcp { tcp_listen_fd = minus_one } }
    else w

-- The last bridged socket takes the relay connection with it.
abbrev pub release_relay : World → World
release_relay w =
    if w.bridged_socket_count == 0
    then record w {
      relay = close w.relay;
      relay_connect_attempted = false;
      last_bridged_local_ip = 0;
      last_bridge_activity_ms = 0;
    }
    else w

-- `Close` on the bridged socket.
unfoldable pub unbridge : Instance → World → Instance × World
unbridge i w =
    let left : World = record w {
      active_ldn_instance =
          if i.bridged_local_port == ldn_control_port && is_owner i w
          then none
          else w.active_ldn_instance;
      bridged_socket_count = w.bridged_socket_count - 1;
    } in
    (
      record i { bridged_fd = minus_one; bridged_local_ip = 0; bridged_local_port = 0 },
      release_relay left,
    )

abbrev pub conn_is_synthetic : Option VTcpConn → Bool
conn_is_synthetic none = false
conn_is_synthetic (some c) = is_synthetic c

unfoldable pub close_fd : Outside → ℕ → Instance → World → Instance × World × Answer
close_fd o fd i w =
    let c = find_vtcp_conn_by_fd (is_owner i w) fd w.vtcp.vtcp_conns in
    let w₁ = close_listener fd i (close_conn fd c i w) in
    let (w₂, reply) = dispatch o (request 26 (fd ∷ []) []) w₁ in
    let i₁ : Instance = record i { tracked = untrack_fd fd i.tracked } in
    let (i₂, w₃) = unbridge i₁ w₂ in
    if conn_is_synthetic c
    then (i₁, w₁, answers 0 no_error)
    else if is_bridged i₁ fd
    then (i₂, w₃, forwarded reply)
    else (i₁, w₂, forwarded reply)
