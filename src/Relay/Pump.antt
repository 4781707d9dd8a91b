-- ===== src/Relay/Pump.antt =====
-- `RelayBridge` as a whole (source/relay_bridge.hpp): the pump thread with its keepalives, `Close`
-- and the calls of its clients. The tick counter and `armTicksToNs` are arguments.
pub mod Drain
use switch_lan_play_nx.Prelude.{
  ℕ, zero, suc, ◌+◌, ◌/◌, Bool, true, false, Option, List, [], ◌∷◌, leb, if◌then◌else◌, sub64,
}
use switch_lan_play_nx.Relay.Fragment.{Sender, send_raw, type_byte, keepalive}
use switch_lan_play_nx.Relay.Reassembly.{Reassembler, recv_ipv4, packet, handled, no_data}
use switch_lan_play_nx.Relay.Queue.{PacketQueue, push_packet, pop_ipv4, clear_queue}

abbrev keepalive_interval_ms : ℕ
keepalive_interval_ms = 2000

-- `sizeof(pkt)` in `PumpLoop`, and the size of a queue entry.
abbrev pub pump_buffer : ℕ
pump_buffer = 1428

pub record RelayBridge : Type 0 where
  pub sender : Sender
  pub reassembler : Reassembler
  pub queue : PacketQueue
  pub last_keepalive_tick : ℕ
  -- The address, as the resolver gives it, and the port of `m_relay_addr`.
  pub relay_addr : ℕ × ℕ
  pub pump_started : Bool
  pub pump_stop : Bool

-- `CheckKeepalive` at tick `now`.
unfoldable pub check_keepalive : (ℕ → ℕ) → ℕ → RelayBridge → RelayBridge
check_keepalive ticks_to_ns now b =
    let elapsed_ns = ticks_to_ns (sub64 now b.last_keepalive_tick) in
    if leb keepalive_interval_ms (elapsed_ns / 1000000)
    then record b {
      sender = (send_raw b.sender (type_byte keepalive ∷ [])).0;
      last_keepalive_tick = now;
    }
    else b

-- The inner loop of `PumpLoop` over the datagrams that wait at the socket: it goes on as long as
-- each of them is a complete packet. What it leaves waits for the next turn.
unfoldable pub drain_relay : RelayBridge → List (List ℕ) → RelayBridge × List (List ℕ)
drain_relay b [] = (b, [])
drain_relay b (datagram ∷ waiting) =
    let (r, result) = recv_ipv4 b.reassembler datagram pump_buffer in
    elim result [
      | packet p ↦ drain_relay (record b { reassembler = r; queue = push_packet b.queue p }) waiting
      | _ ↦ (record b { reassembler = r }, waiting)
    ]

-- One turn of the loop of `PumpLoop`.
unfoldable pub pump_turn : (ℕ → ℕ) → ℕ → RelayBridge → List (List ℕ) → RelayBridge × List (List ℕ)
pump_turn ticks_to_ns now b waiting = drain_relay (check_keepalive ticks_to_ns now b) waiting

-- As many turns as there are ticks given, with nothing new arriving.
unfoldable pub pump_loop :
    (ℕ → ℕ) → List ℕ → RelayBridge → List (List ℕ) → RelayBridge × List (List ℕ)
pump_loop ticks_to_ns [] b waiting = (b, waiting)
pump_loop ticks_to_ns (now ∷ ticks) b waiting =
    let (b', rest) = pump_turn ticks_to_ns now b waiting in pump_loop ticks_to_ns ticks b' rest
