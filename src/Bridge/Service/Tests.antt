-- ===== src/Bridge/Service/Tests.antt =====
-- Concrete inputs for the theorems on the relay's lifecycle and the bsd:u commands.
use switch_lan_play_nx.Prelude.{
  suc, ℕ, ◌≤◌, ◌≡◌, refl, ◌≢◌, ◌⊎◌, Bool, true, false, ◌&&◌, ◌||◌, not, none, some, List, [], ◌∷◌,
  arith, first, ltb, ◌==◌, length, get_or, take, replicate,
}
use switch_lan_play_nx.Packet.Udp.{udp_packet}
use switch_lan_play_nx.Relay.Fragment.{Sender}
use switch_lan_play_nx.Relay.Pump.{RelayBridge}
use switch_lan_play_nx.Relay.Connect.{is_connected}
use switch_lan_play_nx.Bridge.VTcp.{
  send_tcp_segment, VTcpConn, VTcp, PendingAccept, unused_conn, minus_one, has_peer,
}
use switch_lan_play_nx.Bridge.VTcp.Handle.{handle_tcp_segment, is_pending_from}
use switch_lan_play_nx.Bridge.World.{
  initial_background, no_error, World, Outside, Instance, new_instance,
}
use switch_lan_play_nx.Bridge.Lifecycle.{ensure_relay_connected, stop}
use switch_lan_play_nx.Bridge.Lifecycle.Switch.{
  uses_relay, idles, run, ensure_relay_connected-again, run-stop,
}
use switch_lan_play_nx.Bridge.Drain.{drain_packet}
use switch_lan_play_nx.Bridge.TrackedFds.{get_tracked_type, untrack_fd}
use switch_lan_play_nx.Bridge.Service.Forward.{request, forward}
use switch_lan_play_nx.Bridge.Service.Send.{send_to, or_zero}
use switch_lan_play_nx.Bridge.Service.Receive.{recv_from_relay, vfd_has_pending_read}
use switch_lan_play_nx.Bridge.Service.Sockets.{
  bridge_socket, unbridge, listen, close_fd, sock_stream,
}
use switch_lan_play_nx.Bridge.Service.Accept.{accept, accepted_conn}
use switch_lan_play_nx.Bridge.Service.Dial.{connect_fd}
use switch_lan_play_nx.Bridge.Service.Poll.{PollFd, PollReply, no_events, poll_fds}
use switch_lan_play_nx.Bridge.Service.Poll.Readable.{Answers, poll_fds-Answers}
use switch_lan_play_nx.Bridge.Service.Receive.{vfd_has_pending_read}
use switch_lan_play_nx.Bridge.Service.Select.{
  Timeval, SelectReply, no_wait, select_bits, is_synthetic_fd, our_fds, select_fds,
}
use switch_lan_play_nx.Bridge.Service.Select.Bits.{names_fd, is_shown, select_fds-bits}
use switch_lan_play_nx.Bridge.Service.Isolation.{handed_on, handlers-Outsider}
use switch_lan_play_nx.Bridge.ControlQueue.Ports.{waiting}
use switch_lan_play_nx.Bridge.Service.Datagram.{recv_from_relay-drain_packet}
use switch_lan_play_nx.Bridge.Service.Handshake.{
  one_attempt, syn, syn_ack, final_ack, handshake-agrees,
}
use switch_lan_play_nx.Bridge.Drain.Valid.{WorldIsValid}
use switch_lan_play_nx.Bridge.Service.Valid.Commands.{
  sends, begins, goes_on, Reachable-WorldIsValid,
}
use switch_lan_play_nx.Bridge.Lifecycle.Threads.{
  Event, wants_relay, rests, starts, reconnects, stops, happen_all, happen_all-background,
}
use switch_lan_play_nx.Bridge.Service.Balance.{unbridge-bridge_sockets}

abbrev relay : RelayBridge
relay = record {
  sender = record {
    connected = false;
    next_frag_id = 0;
    wire = record { sent = []; refusals = [] };
  };
  reassembler = record { slots = []; most_success_frag_id = 0 };
  queue = record { head = 0; count = 0; packets = replicate 64 [] };
  last_keepalive_tick = 0;
  relay_addr = (0, 0);
  pump_started = false;
  pump_stop = false;
}

abbrev vtcp : VTcp
vtcp = record {
  vtcp_conns = replicate 9 unused_conn;
  tcp_listen_fd = minus_one;
  pending_accepts = replicate 8 (record {
    used = false;
    peer_ip = 0;
    peer_port = 0;
    our_isn = 0;
    their_isn = 0;
    got_final_ack = false;
  });
  next_synthetic_fd = 1000;
}

abbrev world : World
world = record {
  relay = relay;
  relay_connect_attempted = false;
  relay_enabled = true;
  last_bridged_local_ip = 0;
  bridged_socket_count = 0;
  active_ldn_instance = none;
  last_bridge_activity_ms = 0;
  vtcp = vtcp;
  control_queue = [];
  requests = [];
  background = initial_background;
}

abbrev outside : Outside
outside = record {
  network = record { socket_opens = true; creates_pump = true; resolve = λ _. some 0x7f000001 };
  selected = (b'r' ∷ [], 11451);
  bsd_initializes = true;
  socket_initializes = true;
  creates_watchdog = true;
  creates_drain = true;
  tick = 5;
  now_ms = 7;
  random = λ n. n;
  nifm_ip = none;
  real = λ r. record { rc = 0; ret = 0; err = 0; further = 0; from = []; bytes = [] };
}

abbrev game : Instance
game = record (new_instance 2) {
  bridged_fd = 4;
  bridged_local_ip = 0x0a0d0001;
  bridged_local_port = 49152;
}

ensure_relay_connected-again_example :
    let (w', ok) = ensure_relay_connected outside world in
    (ok ≡ (w'.relay_enabled && is_connected w'.relay))
    × (ensure_relay_connected outside w' ≡ (w', ok))
ensure_relay_connected-again_example = ensure_relay_connected-again outside outside world

run-stop_example :
    ((run (stop world) (uses_relay outside ∷ idles outside ∷ [])).relay_enabled ≡ false)
    × (is_connected (run (stop world) (uses_relay outside ∷ idles outside ∷ [])).relay ≡ false)
run-stop_example = run-stop world (uses_relay outside ∷ idles outside ∷ [])

abbrev polled : List PollFd
polled = record { fd = 4; events = record no_events { pollin = true }; revents = no_events } ∷ []

abbrev real_poll : List PollFd → ℕ → PollReply
real_poll fds timeout = record { ret = 0; err = 0; revents = [] }

poll_fds-Answers_example : Answers game world polled (poll_fds real_poll polled 100 game world)
poll_fds-Answers_example = poll_fds-Answers game world real_poll polled 100

abbrev real_select : List Bool → Timeval → SelectReply
real_select readfds timeout = record { ret = 1; err = 0; readfds = true ∷ replicate 31 false }

-- The game asks for descriptors 0 and 4; the second is bridged.
abbrev asked : List Bool
asked = true ∷ false ∷ false ∷ false ∷ true ∷ replicate 27 false

select_fds-bits_example :
    let a = select_fds real_select asked 5 no_wait game world in
    let heard = (real_select a.sent a.timeout).readfds in
    (get_or a.readfds 4 false ≡ (
      get_or heard 4 false
      || (is_shown game world (length heard) 4 && names_fd 4 (our_fds game world))))
    × (get_or a.sent 4 false ≡ (
        get_or (take (select_bits 5) asked) 4 false
        && not (ltb 4 5 && is_synthetic_fd game world 4)))
    × (((ltb 4 5 && vfd_has_pending_read 4 game world) ≡ false) ⊎ (a.timeout ≡ no_wait))
select_fds-bits_example = select_fds-bits game world real_select asked 5 no_wait 4

handlers-Outsider_example :
    (send_to outside 3 0 [] none [] (new_instance 9) world
      ≡ forward outside (request 11 (3 ∷ 0 ∷ []) ([] ∷ [] ∷ [])) world)
    × (accept outside 3 16 (new_instance 9) world
        ≡ handed_on (new_instance 9) (forward outside (request 12 (3 ∷ []) []) world))
    × (listen outside 3 1 (new_instance 9) world
        ≡ forward outside (request 18 (3 ∷ 1 ∷ []) []) world)
    × (close_fd outside 3 (new_instance 9) world
        ≡ handed_on
            (record (new_instance 9) { tracked = untrack_fd 3 (new_instance 9).tracked })
            (forward outside (request 26 (3 ∷ []) []) world))
    × ((get_tracked_type 3 (new_instance 9).tracked == sock_stream && (or_zero none).port == 11452)
          ≡ false
        → connect_fd outside 3 none [] [] (new_instance 9) world
          ≡ forward outside (request 14 (3 ∷ []) ([] ∷ [])) world)
    × (vfd_has_pending_read 3 (new_instance 9) world ≡ false)
handlers-Outsider_example =
    handlers-Outsider outside 3 (new_instance 9) world
      (record { not_owner = refl; not_bridged = refl; not_listening = refl }) 0 1 16 [] [] none []

recv_from_relay-drain_packet_example :
    let (w', a) =
      recv_from_relay outside 2 5 game
        (drain_packet 0 (udp_packet 0x0a0d0002 0x0a0d0001 5000 49152 (1 ∷ 2 ∷ 3 ∷ [])) world) in
    (a.rc ≡ 0)
    × (a.err ≡ no_error)
    × (a.ret ≡ 2)
    × (a.bytes ≡ 1 ∷ 2 ∷ [])
    × (a.further ≡ 5)
    × (a.from ≡ 0 ∷ 2 ∷ 19 ∷ 136 ∷ 10 ∷ [])
    × (waiting 49152 w'.control_queue ≡ [])
recv_from_relay-drain_packet_example =
    recv_from_relay-drain_packet 0x0a0d0002 0x0a0d0001 5000 (1 ∷ 2 ∷ 3 ∷ []) (omega arith)
      (omega arith) (omega arith) outside 2 5 0 game world (omega arith) refl (omega arith)

unbridge-bridge_sockets_example :
    (let (i₁, w₁) = bridge_socket outside 4 11452 0x0a0d0001 (new_instance 1) world in
      let (i₂, w₂) = unbridge i₁ w₁ in
      (w₂.bridged_socket_count ≡ world.bridged_socket_count)
      × (i₂.bridged_fd ≡ minus_one)
      × (world.bridged_socket_count ≡ 0
          → (is_connected w₂.relay ≡ false)
            × (w₂.relay_connect_attempted ≡ false)
            × (w₂.last_bridged_local_ip ≡ 0))
      × (world.bridged_socket_count ≢ 0 → w₂.relay ≡ w₁.relay))
    × (let (i₁, w₁) = bridge_socket outside 4 11452 0x0a0d0001 (new_instance 1) world in
        let (i₂, w₂) = bridge_socket outside 5 49152 0x0a0d0001 i₁ w₁ in
        let (i₃, w₃) = unbridge i₂ w₂ in
        (w₃.bridged_socket_count ≡ suc world.bridged_socket_count)
        × (i₃.bridged_fd ≡ minus_one)
        × (w₃.relay ≡ w₂.relay))
unbridge-bridge_sockets_example =
    unbridge-bridge_sockets outside outside 4 11452 0x0a0d0001 5 49152 0x0a0d0001 (new_instance 1)
      world

abbrev events : List Event
events = wants_relay outside ∷ stops ∷ reconnects outside ∷ rests outside ∷ starts outside ∷ []

happen_all-background_example :
    let v = happen_all world events in
    (v.relay.pump_started ≡ is_connected v.relay)
    × (v.background.drain_runs ≡ v.background.watchdog_runs)
    × (v.background.watchdog_runs ≤ 1)
    × (is_connected v.relay ≡ true → v.background.watchdog_runs ≡ 1)
happen_all-background_example =
    happen_all-background world events refl refl refl (refl, (tt, (refl, (tt, (refl, tt)))))

abbrev client_conn : VTcpConn
client_conn = record unused_conn {
  used = true;
  fd = 3;
  peer_ip = 0x0a0d0001;
  peer_port = 11452;
  our_isn = 70;
  syn_sent_awaiting_synack = true;
}

abbrev client : VTcp
client = record vtcp { vtcp_conns = client_conn ∷ replicate 8 unused_conn }

abbrev joiner : Instance
joiner = record (new_instance 3) { bridged_local_ip = 0x0a0d0002 }

abbrev open_sender : Sender
open_sender = record relay.sender { connected = true }

abbrev open_world : World
open_world = record world { relay = record relay { sender = open_sender } }

abbrev Agrees : Type 0
Agrees =
    let (host₁, r₁) =
      handle_tcp_segment true 90 0x0a0d0001 (syn 0x0a0d0002 0x0a0d0001 70 90) vtcp open_sender in
    let (client₁, t₁) =
      handle_tcp_segment true 0 0x0a0d0002 (syn_ack 0x0a0d0002 0x0a0d0001 70 90) client
        open_sender in
    let (host₂, r₂) =
      handle_tcp_segment true 0 0x0a0d0001 (final_ack 0x0a0d0002 0x0a0d0001 70 90) host₁ r₁ in
    ((one_attempt 0x0a0d0002 0x0a0d0001 70 90 3 joiner open_world).0.relay.sender
      ≡ (send_tcp_segment open_sender 0x0a0d0001 (syn 0x0a0d0002 0x0a0d0001 70 90)).0)
    × (r₁ ≡ (send_tcp_segment open_sender 0x0a0d0002 (syn_ack 0x0a0d0002 0x0a0d0001 70 90)).0)
    × (t₁ ≡ (send_tcp_segment open_sender 0x0a0d0001 (final_ack 0x0a0d0002 0x0a0d0001 70 90)).0)
    × (p : PendingAccept) × (first (is_pending_from 0x0a0d0002) host₂.pending_accepts ≡ some p)
    × (p.got_final_ack ≡ true)
    × (c' : VTcpConn) × (first (has_peer 0x0a0d0001) client₁.vtcp_conns ≡ some c')
    × (c'.established ≡ true)
    × ((accepted_conn 1000 p).their_seq ≡ c'.our_seq)
    × ((accepted_conn 1000 p).our_seq ≡ c'.their_seq)

handshake-agrees_example : Agrees
handshake-agrees_example =
    handshake-agrees 0x0a0d0002 0x0a0d0001 70 90 vtcp client open_sender open_sender client_conn 0 0
      3 joiner open_world refl
      (
        refl,
        refl,
        (
          record {
            used = false;
            peer_ip = 0;
            peer_port = 0;
            our_isn = 0;
            their_isn = 0;
            got_final_ack = false;
          },
          refl,
        ),
      )
      refl refl refl

Reachable-WorldIsValid_example :
    WorldIsValid (send_to outside 4 0 (1 ∷ 2 ∷ []) none [] game world).0
Reachable-WorldIsValid_example =
    Reachable-WorldIsValid (send_to outside 4 0 (1 ∷ 2 ∷ []) none [] game world).0
      (goes_on (begins world refl) (sends outside 4 0 (1 ∷ 2 ∷ []) none [] game world))
