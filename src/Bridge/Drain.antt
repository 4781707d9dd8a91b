-- ===== src/Bridge/Drain.antt =====
-- `DrainRawRelayQueue` of source/bsd/bsd_bridge_service.cpp (`DrainRelay` is a call of it): the
-- relay's packets are filed for their UDP port or handled as segments of the owner's connections.
pub mod Valid
use switch_lan_play_nx.Prelude.{
  ℕ, zero, suc, ◌+◌, true, not, Option, none, some, List, ltb, ◌==◌, if◌then◌else◌, length, get_or,
}
use switch_lan_play_nx.Packet.Udp.{Datagram, parse_ipv4_udp, max_bridged_payload}
use switch_lan_play_nx.Packet.Tcp.{Segment, parse_ipv4_tcp}
use switch_lan_play_nx.Relay.Fragment.{Sender}
use switch_lan_play_nx.Relay.Queue.{pop_ipv4}
use switch_lan_play_nx.Bridge.World.{World, Outside}
use switch_lan_play_nx.Bridge.VTcp.{ldn_control_port, with_conns}
use switch_lan_play_nx.Bridge.VTcp.Handle.{handle_tcp_segment}
use switch_lan_play_nx.Bridge.VTcp.Retransmit.{check_data_retransmits}
use switch_lan_play_nx.Bridge.ControlQueue.{file_packet}

abbrev pub with_sender : World → Sender → World
with_sender w sender = record w { relay = record w.relay { sender = sender } }

abbrev pub file_datagram : List ℕ → Option Datagram → World → World
file_datagram pkt none w = w
file_datagram pkt (some d) w = record w {
  control_queue = file_packet w.control_queue d.dst_port pkt;
}

abbrev pub take_segment : ℕ → Option Segment → World → World
take_segment our_isn none w = w
take_segment our_isn (some s) w =
    let (vtcp, sender) =
      handle_tcp_segment true our_isn w.last_bridged_local_ip s w.vtcp w.relay.sender in
    if not (s.dst_port == ldn_control_port) then w else elim w.active_ldn_instance [
      | none ↦ w
      | some _ ↦ with_sender (record w { vtcp = vtcp }) sender
    ]

-- The body of the loop for a packet.
unfoldable pub drain_packet : ℕ → List ℕ → World → World
drain_packet our_isn pkt w =
    if ltb (length pkt) 20
    then w
    else if get_or pkt 9 0 == 17
    then file_datagram pkt (parse_ipv4_udp pkt) w
    else if not (get_or pkt 9 0 == 6)
    then w
    else take_segment our_isn (parse_ipv4_tcp pkt) w

-- `sizeof(pkt)` in `DrainRawRelayQueue`.
abbrev pub drain_buffer : ℕ
drain_buffer = 20 + 20 + max_bridged_payload

-- The loop, for at most `rounds` packets.
unfoldable pub drain_packets : ℕ → Outside → World → World
drain_packets zero o w = w
drain_packets (suc rounds) o w =
    let (queue, popped) = pop_ipv4 w.relay.queue drain_buffer in
    let w' : World = record w { relay = record w.relay { queue = queue } } in
    elim popped [
      | none ↦ w'
      | some pkt ↦ drain_packets rounds o (drain_packet (o.random rounds) pkt w')
    ]

unfoldable pub drive_retransmits : Outside → World → World
drive_retransmits o w =
    let (conns, sender) =
      check_data_retransmits w.last_bridged_local_ip o.now_ms w.vtcp.vtcp_conns w.relay.sender in
    elim w.active_ldn_instance [
      | none ↦ w
      | some _ ↦ with_sender (record w { vtcp = with_conns w.vtcp conns }) sender
    ]

-- Each packet in the queue is popped at most once, so its count is enough rounds.
unfoldable pub drain_raw_relay_queue : Outside → World → World
drain_raw_relay_queue o w =
    let w' = drive_retransmits o w in drain_packets (suc w'.relay.queue.count) o w'
