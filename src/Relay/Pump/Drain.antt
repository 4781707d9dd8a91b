-- ===== src/Relay/Pump/Drain.antt =====
-- The pump thread empties the socket: what it queues, and what never arrives.
use switch_lan_play_nx.Prelude.{
  ℕ, ◌-◌, ◌≤◌, ◌<◌, ◌≡◌, refl, ap, ap₂, ◌^◌, ◌∙◌, sym, not, none, some, List, [], ◌∷◌, length, leb,
  if◌then◌else◌, arith,
}
use switch_lan_play_nx.Relay.Fragment.{Sender, four_bytes, send_ipv4}
use switch_lan_play_nx.Relay.Fragment.Frames.{IsOpen}
use switch_lan_play_nx.Relay.Reassembly.{
  Reassembler, ReassemblySlot, Received, packet, handled, no_data, recv_ipv4, recv_all, find_slot,
  in_group, buffer_len,
}
use switch_lan_play_nx.Relay.Reassembly.RoundTrip.{recv_all-send_ipv4}
use switch_lan_play_nx.Relay.Queue.{PacketQueue, push_packet, pop_ipv4}
use switch_lan_play_nx.Relay.Queue.Refine.{IsValid, pop_ipv4_empty, pop_ipv4-push_packet}
use switch_lan_play_nx.Relay.Pump.{
  RelayBridge, pump_buffer, check_keepalive, drain_relay, pump_turn, pump_loop,
}

abbrev pub push_all : PacketQueue → List (List ℕ) → PacketQueue
push_all q [] = q
push_all q (p ∷ packets) = push_all (push_packet q p) packets

-- A turn takes at least one datagram if any waits, and what it queued and what it left for later
-- come to the same packets.
record Turn (b : RelayBridge) (waiting : List (List ℕ)) (out : RelayBridge × List (List ℕ))
    : Type 0 where
  progress : length out.1 ≤ length waiting - 1
  reassembler :
      (recv_all b.reassembler waiting pump_buffer).0
      ≡ (recv_all out.0.reassembler out.1 pump_buffer).0
  queue :
      push_all b.queue (recv_all b.reassembler waiting pump_buffer).1
      ≡ push_all out.0.queue (recv_all out.0.reassembler out.1 pump_buffer).1

drain_relay-Turn :
    (waiting : List (List ℕ)) (b : RelayBridge) → Turn b waiting (drain_relay b waiting)
unfolding drain_relay recv_all
drain_relay-Turn [] b = record { progress = omega arith; reassembler = refl; queue = refl }
drain_relay-Turn (d ∷ waiting) b =
    go (recv_ipv4 b.reassembler d pump_buffer) refl (λ c. drain_relay-Turn waiting c)
  where
    go :
        (x : Reassembler × Received)
        → recv_ipv4 b.reassembler d pump_buffer ≡ x
        → ((c : RelayBridge) → Turn c waiting (drain_relay c waiting))
        → Turn b (d ∷ waiting) (drain_relay b (d ∷ waiting))
    go (r, packet p) e ih =
        let t = ih (record b { reassembler = r; queue = push_packet b.queue p }) in
        record {
          progress = ground (arith, e, t.progress);
          reassembler = ground (arith, e, t.reassembler);
          queue = ground (arith, e, t.queue);
        }
    go (r, handled) e ih = record {
      progress = ground (arith, e);
      reassembler = ground (arith, e);
      queue = ground (arith, e);
    }
    go (r, no_data) e ih = record {
      progress = ground (arith, e);
      reassembler = ground (arith, e);
      queue = ground (arith, e);
    }

check_keepalive_keeps :
    (ticks_to_ns : ℕ → ℕ) (now : ℕ) (b : RelayBridge)
    → let b' = check_keepalive ticks_to_ns now b in
      (b'.reassembler ≡ b.reassembler) × (b'.queue ≡ b.queue)
unfolding check_keepalive
check_keepalive_keeps ticks_to_ns now b = ground arith

pump_turn-Turn :
    (ticks_to_ns : ℕ → ℕ) (now : ℕ) (b : RelayBridge) (waiting : List (List ℕ))
    → Turn b waiting (pump_turn ticks_to_ns now b waiting)
unfolding pump_turn
pump_turn-Turn ticks_to_ns now b waiting =
    let (same_r, same_q) = check_keepalive_keeps ticks_to_ns now b in
    let t = drain_relay-Turn waiting (check_keepalive ticks_to_ns now b) in
    record {
      progress = t.progress;
      reassembler = ap (λ r. (recv_all r waiting pump_buffer).0) (sym same_r) ∙ t.reassembler;
      queue =
          ap₂ (λ q r. push_all q (recv_all r waiting pump_buffer).1) (sym same_q) (sym same_r)
          ∙ t.queue;
    }

-- With a turn for each datagram that waits, the pump thread empties the socket: every datagram
-- went through `RecvIpv4` in order, and each packet that came out was put to the queue in order.
pub pump_loop-drains :
    (ticks_to_ns : ℕ → ℕ) (ticks : List ℕ) (b : RelayBridge) (waiting : List (List ℕ))
    → length waiting ≤ length ticks
    → let (b', rest) = pump_loop ticks_to_ns ticks b waiting in
      let (r, packets) = recv_all b.reassembler waiting pump_buffer in
      (rest ≡ []) × (b'.reassembler ≡ r) × (b'.queue ≡ push_all b.queue packets)
unfolding pump_loop
pump_loop-drains ticks_to_ns [] b [] h = unfold recv_all in (refl, refl, refl)
pump_loop-drains ticks_to_ns [] b (d ∷ waiting) h = absurd (omega arith)
pump_loop-drains ticks_to_ns (now ∷ ticks) b waiting h =
    let t = pump_turn-Turn ticks_to_ns now b waiting in
    let (empty, r, q) =
      pump_loop-drains ticks_to_ns ticks (pump_turn ticks_to_ns now b waiting).0
        (pump_turn ticks_to_ns now b waiting).1 (omega arith) in
    (empty, r ∙ sym t.reassembler, q ∙ sym t.queue)

module _ (ticks_to_ns : ℕ → ℕ) (ticks : List ℕ) (s : Sender) (p : List ℕ) (b : RelayBridge)
    (i size : ℕ) (slot : ReassemblySlot) where
  -- A peer sends a packet of at most 5600 bytes over an open socket, and the frames reach a bridge
  -- whose queue is valid and empty, with a free slot and no group of this id and source under
  -- way. After a turn of the pump for each frame `PopIpv4` into a buffer of at least 1428 bytes
  -- returns the packet if it has at most 1428 bytes, and a longer one is lost.
  pub pop_ipv4-pump_loop-send_ipv4 :
      IsOpen s
      → s.wire.sent ≡ []
      → s.next_frag_id < 2 ^ 16
      → length p ≤ buffer_len
      → find_slot (in_group s.next_frag_id (four_bytes p 12)) b.reassembler.slots ≡ none
      → find_slot (λ t. not t.used) b.reassembler.slots ≡ some (i, slot)
      → length slot.buffer ≡ buffer_len
      → IsValid b.queue
      → b.queue.count ≡ 0
      → length (send_ipv4 s p).0.wire.sent ≤ length ticks
      → pump_buffer ≤ size
      → let (b', rest) = pump_loop ticks_to_ns ticks b (send_ipv4 s p).0.wire.sent in
        (rest ≡ [])
        × ((pop_ipv4 b'.queue size).1 ≡ (if leb (length p) pump_buffer then some p else none))
  pop_ipv4-pump_loop-send_ipv4 o fresh id_fits fits none_yet free h v e turns room =
      let (empty, r, q) = pump_loop-drains ticks_to_ns ticks b (send_ipv4 s p).0.wire.sent turns in
      let (_, got) =
        recv_all-send_ipv4 s p b.reassembler pump_buffer i slot o fresh id_fits fits none_yet free
          h in
      (empty, ap (λ x. (pop_ipv4 x size).1) (q ∙ ap (push_all b.queue) got) ∙ popped)
    where
      popped :
          (pop_ipv4 (push_all b.queue (if leb (length p) pump_buffer then p ∷ [] else [])) size).1
          ≡ (if leb (length p) pump_buffer then some p else none)
      popped =
          ground (arith, pop_ipv4_empty b.queue size v e, pop_ipv4-push_packet b.queue size v e p)
