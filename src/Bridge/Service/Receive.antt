-- ===== src/Bridge/Service/Receive.antt =====
-- `RecvFrom` and `VFdHasPendingRead` of source/bsd/bsd_bridge_service.cpp. A buffer is its size.
use switch_lan_play_nx.Prelude.{
  ℕ, min, Bool, false, ◌&&◌, ◌||◌, not, Option, none, some, List, [], ◌∷◌, update_first, ltb, ◌==◌,
  if◌then◌else◌, length, take,
}
use switch_lan_play_nx.Packet.Udp.{Datagram, parse_ipv4_udp, udp_src_port}
use switch_lan_play_nx.Bridge.World.{
  World, Outside, Instance, Address, sockaddr_in, Answer, answers, no_error, ewouldblock, is_owner,
  touch_bridge_activity,
}
use switch_lan_play_nx.Bridge.Drain.{drain_raw_relay_queue}
use switch_lan_play_nx.Bridge.ControlQueue.{
  ControlPacket, control_data_len, pop_control_packet_for_port, has_packet_for,
}
use switch_lan_play_nx.Bridge.VTcp.{
  VTcpConn, PendingAccept, minus_one, has_fd, find_vtcp_conn_by_fd, is_own_tcp_listen_fd,
  with_conns, delivered, undelivered,
}
use switch_lan_play_nx.Bridge.TrackedFds.{is_negative}
use switch_lan_play_nx.Bridge.Service.Forward.{request, forward, is_bridged}

abbrev sockaddr_len : ℕ
sockaddr_len = 16

-- How much of a `sockaddr_in` is copied to an address buffer.
abbrev pub addrlen_for : ℕ → ℕ
addrlen_for addr_size = if ltb addr_size sockaddr_len then addr_size else sockaddr_len

-- The outputs after bytes from a peer were delivered.
abbrev pub received : ℕ → Address → List ℕ → Answer
received addr_size peer bytes = record {
  rc = 0;
  ret = length bytes;
  err = no_error;
  further = addrlen_for addr_size;
  from = take (addrlen_for addr_size) (sockaddr_in peer);
  bytes = bytes;
}

-- The branch for a virtual TCP connection.
unfoldable pub recv_from_vtcp : Outside → ℕ → ℕ → ℕ → VTcpConn → World → World × Answer
recv_from_vtcp o fd size addr_size c w =
    if length c.inbox == 0
    then (w, (if c.peer_closed then answers 0 no_error else answers minus_one ewouldblock))
    else (
      touch_bridge_activity o (record w {
        vtcp = with_conns w.vtcp (update_first (has_fd fd) (undelivered size) w.vtcp.vtcp_conns);
      }),
      received addr_size (record { ip = c.peer_ip; port = c.peer_port }) (delivered size c),
    )

abbrev pub deliver_datagram : Outside → ℕ → ℕ → List ℕ → Option Datagram → World → World × Answer
deliver_datagram o size addr_size pkt none w = (w, answers minus_one ewouldblock)
deliver_datagram o size addr_size pkt (some d) w = (
  touch_bridge_activity o w,
  received addr_size (record { ip = d.src_ip; port = udp_src_port pkt })
      (take (min size (length d.payload)) d.payload),
)

abbrev pub deliver_popped :
    Outside → ℕ → ℕ → Option (ControlPacket × List ControlPacket) → World → World × Answer
deliver_popped o size addr_size none w = (w, answers minus_one ewouldblock)
deliver_popped o size addr_size (some (p, left)) w =
    let pkt = take (min (length p.bytes) control_data_len) p.bytes in
    deliver_datagram o size addr_size pkt (parse_ipv4_udp pkt) (record w { control_queue = left })

-- The branch for the bridged UDP socket.
unfoldable pub recv_from_relay : Outside → ℕ → ℕ → Instance → World → World × Answer
recv_from_relay o size addr_size i w =
    deliver_popped o size addr_size
      (pop_control_packet_for_port i.bridged_local_port w.control_queue) w

unfoldable pub recv_from : Outside → ℕ → ℕ → ℕ → ℕ → Instance → World → World × Answer
recv_from o fd flags size addr_size i w₀ =
    let w = drain_raw_relay_queue o w₀ in
    elim (find_vtcp_conn_by_fd (is_owner i w) fd w.vtcp.vtcp_conns) [
      | some c ↦ recv_from_vtcp o fd size addr_size c w
      | none ↦
          if not (is_bridged i fd)
          then forward o (request 9 (fd ∷ flags ∷ []) []) w
          else recv_from_relay o size addr_size i w
    ]

abbrev pub is_ready : PendingAccept → Bool
is_ready p = p.used && p.got_final_ack

abbrev any_ready : List PendingAccept → Bool
any_ready [] = false
any_ready (p ∷ pending) = is_ready p || any_ready pending

abbrev conn_readable : Option VTcpConn → Bool
conn_readable none = false
conn_readable (some c) = ltb 0 (length c.inbox) || c.peer_closed

unfoldable pub vfd_has_pending_read : ℕ → Instance → World → Bool
vfd_has_pending_read poll_fd i w =
    if is_negative poll_fd
    then false
    else if poll_fd == i.bridged_fd
    then has_packet_for i.bridged_local_port w.control_queue
    else if is_own_tcp_listen_fd (is_owner i w) poll_fd w.vtcp
    then any_ready w.vtcp.pending_accepts
    else conn_readable (find_vtcp_conn_by_fd (is_owner i w) poll_fd w.vtcp.vtcp_conns)
