-- ===== src/Bridge/Service/Valid.antt =====
-- Every command keeps the buffers and counters of every virtual connection within their bounds.
pub mod Sockets
pub mod Dial
pub mod Commands
use switch_lan_play_nx.Prelude.{
  ℕ, zero, suc, ◌+◌, ◌-◌, ◌*◌, ◌/◌, ◌%◌, ◌^◌, ◌≤◌, ◌<◌, compare, Ordering, bit_or, min, ◌≡◌, refl,
  sym, ap, ap₂, subst, ◌∙◌, ◌≡⟨◌⟩◌, ◌∎, ◌≢◌, ◌⊎◌, inl, inr, ◌↔◌, Bool, true, false, ◌&&◌, ◌||◌, not,
  Option, none, some, List, [], ◌∷◌, ◌++◌, map, append-nil, append_assoc, arith, first,
  update_first, first-passes, update_first-none, first-update_first, first-update_first_ne,
  update_first-agree, first-update_first_new, first-narrow, ltb, leb, ◌==◌, if◌then◌else◌, ltb→lt,
  lt→ltb, le→ltb, leb→le, le→leb, lt→leb, ==_iff, ==_refl, ne→==, Bool-cases, Option-cases, if_true,
  if_false, if_elim, length, get_elem?, get_or, set, take, drop, replicate, length-append,
  length-set, length-take, length-drop, take-append-drop, take_all, take-append, drop-append,
  take-add, take-take, get_elem?-set_self, get_elem?-set_ne, get_elem?-lt, length-replicate, u8,
  u16, u32, add32, sub64, has_bit, be16, be32, bytes16, bytes32, be16-bytes, be32-bytes,
}
use switch_lan_play_nx.Packet.Udp.{Datagram, parse_ipv4_udp, build_ipv4_udp}
use switch_lan_play_nx.Relay.Fragment.{Sender}
use switch_lan_play_nx.Bridge.World.{World, Outside, Instance, Address, Answer, is_owner, dispatch}
use switch_lan_play_nx.Bridge.Lifecycle.{ensure_relay_connected, connect_relay_locked}
use switch_lan_play_nx.Bridge.VTcp.{
  VTcpConn, PendingAccept, VTcp, vtcp_inbox_cap, has_fd, unused_conn, is_unused, with_conns,
  undelivered, alloc_vtcp_conn, find_vtcp_conn_by_fd, is_own_tcp_listen_fd, send_tcp_segment,
}
use switch_lan_play_nx.Bridge.VTcp.Retransmit.{data_segment}
use switch_lan_play_nx.Bridge.VTcp.Valid.{ConnIsValid, AllValid, update_first-AllValid}
use switch_lan_play_nx.Bridge.ControlQueue.{
  ControlPacket, control_data_len, pop_control_packet_for_port,
}
use switch_lan_play_nx.Bridge.Drain.{with_sender, drain_raw_relay_queue}
use switch_lan_play_nx.Bridge.Drain.Valid.{conns, WorldIsValid, drain_raw_relay_queue-WorldIsValid}
use switch_lan_play_nx.Bridge.Service.Send.{
  send_to, send_to_vtcp, send_to_relay, send_packet, in_flight, after_sent, or_zero,
}
use switch_lan_play_nx.Bridge.Service.Receive.{
  recv_from, recv_from_vtcp, recv_from_relay, deliver_popped, deliver_datagram, is_ready,
}
use switch_lan_play_nx.Bridge.Service.Forward.{request, forward, is_bridged}
use switch_lan_play_nx.Bridge.Service.Sockets.{
  bind, bind_bridged, bridge_socket, listen, close_fd, close_conn, close_listener, unbridge,
  release_relay, conn_is_synthetic,
}
use switch_lan_play_nx.Bridge.Service.Accept.{accept, accept_ready, accept_pending, accepted_conn}
use switch_lan_play_nx.Bridge.Service.Dial.{
  connect_fd, dial, dial_with, dialled, dialling_conn, attempts, wait_established,
  rounds_per_attempt, max_attempts, syn_segment, is_established,
}

ensure_relay_connected-conns :
    (o : Outside) (w : World) → conns (ensure_relay_connected o w).0 ≡ conns w
unfolding ensure_relay_connected connect_relay_locked
ensure_relay_connected-conns o w = ground arith

module _ (o : Outside) (i : Instance) where
  pub ensured : (w : World) → WorldIsValid w → WorldIsValid (ensure_relay_connected o w).0
  ensured w valid = subst AllValid (sym (ensure_relay_connected-conns o w)) valid

  after_sent-WorldIsValid :
      (fd : ℕ) (payload : List ℕ) (sent : Option ℕ) (w : World)
      → length payload ≤ vtcp_inbox_cap
      → WorldIsValid w
      → WorldIsValid (after_sent o fd payload sent w)
  after_sent-WorldIsValid fd payload none w fits valid = valid
  after_sent-WorldIsValid fd payload (some n) w fits valid =
      update_first-AllValid (has_fd fd) (in_flight o.now_ms payload) (conns w) (λ c v. ground arith)
        valid

  abbrev ResultIsValid : World × Answer → Type 0
  ResultIsValid (w, answer) = WorldIsValid w

  send_to_vtcp-WorldIsValid :
      (fd : ℕ) (payload : List ℕ) (c : VTcpConn) (w : World)
      → WorldIsValid w
      → ResultIsValid (send_to_vtcp o fd payload c i w)
  unfolding send_to_vtcp
  send_to_vtcp-WorldIsValid fd payload c w valid =
      if_elim ResultIsValid (not c.established) _ _ (λ _. valid)
        (λ _.
          if_elim ResultIsValid (not (ensure_relay_connected o w).1) _ _ (λ _. ensured w valid)
            (λ _.
              if_elim ResultIsValid (ltb vtcp_inbox_cap (length payload)) _ _ (λ _. ensured w valid)
                (λ fits. after_sent-WorldIsValid fd payload _ _ (ground arith) (ensured w valid))))

  send_packet-WorldIsValid :
      (payload : List ℕ) (packet : Option (List ℕ)) (w : World)
      → WorldIsValid w
      → ResultIsValid (send_packet o payload packet w)
  send_packet-WorldIsValid payload none w valid = valid
  send_packet-WorldIsValid payload (some packet) w valid = valid

  send_to_relay-WorldIsValid :
      (payload : List ℕ) (dst : Address) (w : World)
      → WorldIsValid w
      → ResultIsValid (send_to_relay o payload dst i w)
  unfolding send_to_relay
  send_to_relay-WorldIsValid payload dst w valid =
      if_elim ResultIsValid (not (ensure_relay_connected o w).1) _ _ (λ _. ensured w valid)
        (λ _. send_packet-WorldIsValid payload _ _ (ensured w valid))

  pub send_to-WorldIsValid :
      (fd flags : ℕ) (payload : List ℕ) (dst : Option Address) (addr : List ℕ) (w : World)
      → WorldIsValid w
      → ResultIsValid (send_to o fd flags payload dst addr i w)
  unfolding send_to forward
  send_to-WorldIsValid fd flags payload dst addr w valid =
      go (find_vtcp_conn_by_fd (is_owner i w) fd (conns w))
    where
      go :
          (found : Option VTcpConn)
          → ResultIsValid (elim found [
            | some c ↦ send_to_vtcp o fd payload c i w
            | none ↦
                if not (is_bridged i fd)
                then forward o (request 11 (fd ∷ flags ∷ []) (payload ∷ addr ∷ [])) w
                else send_to_relay o payload (or_zero dst) i w
          ])
      go (some c) = send_to_vtcp-WorldIsValid fd payload c w valid
      go none =
          if_elim ResultIsValid (not (is_bridged i fd)) _ _ (λ _. valid)
            (λ _. send_to_relay-WorldIsValid payload (or_zero dst) w valid)

  deliver_popped-WorldIsValid :
      (size addr_size : ℕ) (popped : Option (ControlPacket × List ControlPacket)) (w : World)
      → WorldIsValid w
      → ResultIsValid (deliver_popped o size addr_size popped w)
  deliver_popped-WorldIsValid size addr_size none w valid = valid
  deliver_popped-WorldIsValid size addr_size (some (p, left)) w valid =
      go (take (min (length p.bytes) control_data_len) p.bytes)
        (parse_ipv4_udp (take (min (length p.bytes) control_data_len) p.bytes))
    where
      go :
          (pkt : List ℕ) (d : Option Datagram)
          → ResultIsValid
              (deliver_datagram o size addr_size pkt d (record w { control_queue = left }))
      go pkt none = valid
      go pkt (some d) = valid

  recv_from_vtcp-WorldIsValid :
      (fd size addr_size : ℕ) (c : VTcpConn) (w : World)
      → WorldIsValid w
      → ResultIsValid (recv_from_vtcp o fd size addr_size c w)
  unfolding recv_from_vtcp
  recv_from_vtcp-WorldIsValid fd size addr_size c w valid =
      if_elim ResultIsValid (length c.inbox == 0) _ _ (λ _. valid)
        (λ _.
          update_first-AllValid (has_fd fd) (undelivered size) (conns w)
            (λ x v. ground (arith, length-drop (min size (length x.inbox)) x.inbox)) valid)

  pub recv_from-WorldIsValid :
      (fd flags size addr_size : ℕ) (w : World)
      → WorldIsValid w
      → ResultIsValid (recv_from o fd flags size addr_size i w)
  unfolding recv_from forward recv_from_relay
  recv_from-WorldIsValid fd flags size addr_size w₀ valid₀ =
      go (find_vtcp_conn_by_fd (is_owner i w) fd (conns w))
    where
      w : World
      w = drain_raw_relay_queue o w₀

      valid : WorldIsValid w
      valid = drain_raw_relay_queue-WorldIsValid o w₀ valid₀

      go :
          (found : Option VTcpConn)
          → ResultIsValid (elim found [
            | some c ↦ recv_from_vtcp o fd size addr_size c w
            | none ↦
                if not (is_bridged i fd)
                then forward o (request 9 (fd ∷ flags ∷ []) []) w
                else recv_from_relay o size addr_size i w
          ])
      go (some c) = recv_from_vtcp-WorldIsValid fd size addr_size c w valid
      go none =
          if_elim ResultIsValid (not (is_bridged i fd)) _ _ (λ _. valid)
            (λ _.
              deliver_popped-WorldIsValid size addr_size
                (pop_control_packet_for_port i.bridged_local_port w.control_queue) w valid)
