-- ===== src/Bridge/Drain/Valid.antt =====
-- Draining keeps the buffers and counters of every virtual connection within their bounds.
use switch_lan_play_nx.Prelude.{
  ℕ, zero, suc, true, not, Option, none, some, List, ltb, ◌==◌, if_elim, length, get_or,
}
use switch_lan_play_nx.Packet.Udp.{Datagram, parse_ipv4_udp}
use switch_lan_play_nx.Packet.Tcp.{Segment, parse_ipv4_tcp}
use switch_lan_play_nx.Relay.Queue.{pop_ipv4}
use switch_lan_play_nx.Relay.Fragment.{Sender}
use switch_lan_play_nx.Bridge.VTcp.Retransmit.{check_data_retransmits}
use switch_lan_play_nx.Bridge.World.{World, Outside}
use switch_lan_play_nx.Bridge.VTcp.{VTcpConn, with_conns, ldn_control_port}
use switch_lan_play_nx.Bridge.VTcp.Valid.{
  AllValid, handle_tcp_segment-AllValid, check_data_retransmits-AllValid,
}
use switch_lan_play_nx.Bridge.VTcp.Handle.{handle_tcp_segment}
use switch_lan_play_nx.Bridge.Drain.{
  with_sender, take_segment, file_datagram, drain_packet, drain_packets, drive_retransmits,
  drain_raw_relay_queue, drain_buffer,
}

-- The virtual connections of a world.
abbrev pub conns : World → List VTcpConn
conns w = w.vtcp.vtcp_conns

abbrev pub WorldIsValid : World → Type 0
WorldIsValid w = AllValid (conns w)

take_segment-WorldIsValid :
    (our_isn : ℕ) (s : Option Segment) (w : World)
    → WorldIsValid w
    → WorldIsValid (take_segment our_isn s w)
take_segment-WorldIsValid our_isn none w valid = valid
take_segment-WorldIsValid our_isn (some s) w valid =
    if_elim WorldIsValid (not (s.dst_port == ldn_control_port)) w _ (λ _. valid)
      (λ _. owned w.active_ldn_instance)
  where
    owned :
        (owner : Option ℕ)
        → WorldIsValid (elim owner [
          | none ↦ w
          | some _ ↦
              with_sender
                (record w {
                  vtcp =
                      (handle_tcp_segment true our_isn w.last_bridged_local_ip s w.vtcp
                        w.relay.sender).0;
                })
                (handle_tcp_segment true our_isn w.last_bridged_local_ip s w.vtcp w.relay.sender).1
        ])
    owned none = valid
    owned (some id) =
        handle_tcp_segment-AllValid our_isn w.last_bridged_local_ip s w.vtcp w.relay.sender valid

file_datagram-WorldIsValid :
    (pkt : List ℕ) (d : Option Datagram) (w : World)
    → WorldIsValid w
    → WorldIsValid (file_datagram pkt d w)
file_datagram-WorldIsValid pkt none w valid = valid
file_datagram-WorldIsValid pkt (some d) w valid = valid

drain_packet-WorldIsValid :
    (our_isn : ℕ) (pkt : List ℕ) (w : World)
    → WorldIsValid w
    → WorldIsValid (drain_packet our_isn pkt w)
unfolding drain_packet
drain_packet-WorldIsValid our_isn pkt w valid =
    if_elim WorldIsValid (ltb (length pkt) 20) w _ (λ _. valid)
      (λ _.
        if_elim WorldIsValid (get_or pkt 9 0 == 17) _ _
          (λ _. file_datagram-WorldIsValid pkt (parse_ipv4_udp pkt) w valid)
          (λ _.
            if_elim WorldIsValid (not (get_or pkt 9 0 == 6)) w _ (λ _. valid)
              (λ _. take_segment-WorldIsValid our_isn (parse_ipv4_tcp pkt) w valid)))

drain_packets-WorldIsValid :
    (rounds : ℕ) (o : Outside) (w : World)
    → WorldIsValid w
    → WorldIsValid (drain_packets rounds o w)
unfolding drain_packets
drain_packets-WorldIsValid zero o w valid = valid
drain_packets-WorldIsValid (suc rounds) o w valid =
    go (pop_ipv4 w.relay.queue drain_buffer).1 (λ pkt.
      drain_packets-WorldIsValid rounds o (drain_packet (o.random rounds) pkt w')
        (drain_packet-WorldIsValid (o.random rounds) pkt w' valid))
  where
    w' : World
    w' = record w { relay = record w.relay { queue = (pop_ipv4 w.relay.queue drain_buffer).0 } }

    go :
        (popped : Option (List ℕ))
        → ((pkt : List ℕ)
            → WorldIsValid (drain_packets rounds o (drain_packet (o.random rounds) pkt w')))
        → WorldIsValid (elim popped [
          | none ↦ w'
          | some pkt ↦ drain_packets rounds o (drain_packet (o.random rounds) pkt w')
        ])
    go none next = valid
    go (some pkt) next = next pkt

drive_retransmits-WorldIsValid :
    (o : Outside) (w : World) → WorldIsValid w → WorldIsValid (drive_retransmits o w)
unfolding drive_retransmits
drive_retransmits-WorldIsValid o w valid = owned w.active_ldn_instance
  where
    resent : List VTcpConn × Sender
    resent =
        check_data_retransmits w.last_bridged_local_ip o.now_ms w.vtcp.vtcp_conns w.relay.sender

    owned :
        (owner : Option ℕ)
        → WorldIsValid (elim owner [
          | none ↦ w
          | some _ ↦ with_sender (record w { vtcp = with_conns w.vtcp resent.0 }) resent.1
        ])
    owned none = valid
    owned (some id) =
        check_data_retransmits-AllValid w.last_bridged_local_ip o.now_ms w.vtcp.vtcp_conns
          w.relay.sender valid

pub drain_raw_relay_queue-WorldIsValid :
    (o : Outside) (w : World) → WorldIsValid w → WorldIsValid (drain_raw_relay_queue o w)
unfolding drain_raw_relay_queue
drain_raw_relay_queue-WorldIsValid o w valid =
    drain_packets-WorldIsValid (suc (drive_retransmits o w).relay.queue.count) o
      (drive_retransmits o w) (drive_retransmits-WorldIsValid o w valid)
