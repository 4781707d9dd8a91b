-- ===== src/Bridge/Service/Send.antt =====
-- `SendTo` of source/bsd/bsd_bridge_service.cpp. A destination shorter than a `sockaddr_in` is `none`.
use switch_lan_play_nx.Prelude.{
  ℕ, true, not, Option, none, some, List, [], ◌∷◌, update_first, ltb, if◌then◌else◌, length, add32,
}
use switch_lan_play_nx.Packet.Udp.{build_ipv4_udp}
use switch_lan_play_nx.Relay.Fragment.{send_ipv4}
use switch_lan_play_nx.Bridge.World.{
  World, Outside, Instance, Address, Answer, answers, no_error, eio, emsgsize, is_owner,
  touch_bridge_activity,
}
use switch_lan_play_nx.Bridge.Lifecycle.{ensure_relay_connected}
use switch_lan_play_nx.Bridge.Drain.{with_sender}
use switch_lan_play_nx.Bridge.VTcp.{
  VTcpConn, vtcp_inbox_cap, minus_one, has_fd, find_vtcp_conn_by_fd, send_tcp_segment, with_conns,
}
use switch_lan_play_nx.Bridge.VTcp.Retransmit.{data_segment}
use switch_lan_play_nx.Bridge.Service.Forward.{request, forward, is_bridged}

abbrev no_destination : Address
no_destination = record { ip = 0; port = 0 }

-- The segment just sent is kept for sending it again.
abbrev pub in_flight : ℕ → List ℕ → VTcpConn → VTcpConn
in_flight now payload c = record c {
  has_unacked_data = true;
  unacked_data = payload;
  unacked_seq = c.our_seq;
  last_send_tick_ms = now;
  retransmit_count = 0;
  our_seq = add32 c.our_seq (length payload);
}

-- `out_errno` and `out_size` after a send.
abbrev sent_answer : Option ℕ → List ℕ → Answer
sent_answer none payload = answers minus_one eio
sent_answer (some _) payload = answers (length payload) no_error

abbrev pub after_sent : Outside → ℕ → List ℕ → Option ℕ → World → World
after_sent o fd payload none w = w
after_sent o fd payload (some _) w = record w {
  vtcp =
      with_conns w.vtcp (update_first (has_fd fd) (in_flight o.now_ms payload) w.vtcp.vtcp_conns);
}

-- The branch for a virtual TCP connection.
unfoldable pub send_to_vtcp : Outside → ℕ → List ℕ → VTcpConn → Instance → World → World × Answer
send_to_vtcp o fd payload c i w =
    let (w₁, up) = ensure_relay_connected o w in
    let (sender, sent) =
      send_tcp_segment w₁.relay.sender c.peer_ip
        (data_segment i.bridged_local_ip c.our_seq c payload) in
    if not c.established
    then (w, answers minus_one eio)
    else if not up
    then (w₁, answers minus_one eio)
    else if ltb vtcp_inbox_cap (length payload)
    then (w₁, answers minus_one emsgsize)
    else (
      touch_bridge_activity o (after_sent o fd payload sent (with_sender w₁ sender)),
      sent_answer sent payload,
    )

abbrev pub send_packet : Outside → List ℕ → Option (List ℕ) → World → World × Answer
send_packet o payload none w = (w, answers minus_one emsgsize)
send_packet o payload (some packet) w =
    let (sender, sent) = send_ipv4 w.relay.sender packet in
    (touch_bridge_activity o (with_sender w sender), sent_answer sent payload)

-- The branch for the bridged UDP socket.
unfoldable pub send_to_relay : Outside → List ℕ → Address → Instance → World → World × Answer
send_to_relay o payload dst i w =
    let (w₁, up) = ensure_relay_connected o w in
    if not up
    then (w₁, answers minus_one eio)
    else send_packet o payload
        (build_ipv4_udp i.bridged_local_ip dst.ip i.bridged_local_port dst.port payload) w₁

abbrev pub or_zero : Option Address → Address
or_zero none = no_destination
or_zero (some address) = address

unfoldable pub send_to :
    Outside → ℕ → ℕ → List ℕ → Option Address → List ℕ → Instance → World → World × Answer
send_to o fd flags payload dst addr i w =
    elim (find_vtcp_conn_by_fd (is_owner i w) fd w.vtcp.vtcp_conns) [
      | some c ↦ send_to_vtcp o fd payload c i w
      | none ↦
          if not (is_bridged i fd)
          then forward o (request 11 (fd ∷ flags ∷ []) (payload ∷ addr ∷ [])) w
          else send_to_relay o payload (or_zero dst) i w
    ]
