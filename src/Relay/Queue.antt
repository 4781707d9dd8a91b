-- ===== src/Relay/Queue.antt =====
-- The inbound packet queue of `RelayBridge` (source/relay_bridge.hpp): `m_queue`, filled by
-- `PumpLoop` and emptied by `PopIpv4`, and `HasPending`. A `Packet` is the list of its `len` bytes.
pub mod Refine
use switch_lan_play_nx.Prelude.{
  ℕ, ◌+◌, ◌-◌, ◌%◌, Bool, Option, none, some, List, [], length, get_or, set, ltb, ◌==◌,
  if◌then◌else◌,
}

abbrev pub queue_size : ℕ
queue_size = 64

pub record PacketQueue : Type 0 where
  pub head : ℕ
  pub count : ℕ
  pub packets : List (List ℕ)

-- The body of the loop in `PumpLoop`: a full queue drops the packet.
unfoldable pub push_packet : PacketQueue → List ℕ → PacketQueue
push_packet q packet =
    if ltb q.count queue_size
    then record q {
      packets = set q.packets ((q.head + q.count) % queue_size) packet;
      count = q.count + 1;
    }
    else q

abbrev advance : PacketQueue → PacketQueue
advance q = record q { head = (q.head + 1) % queue_size; count = q.count - 1 }

-- `PopIpv4`: 0 as `none`.
unfoldable pub pop_ipv4 : PacketQueue → ℕ → PacketQueue × Option (List ℕ)
pop_ipv4 q out_buf_size =
    let packet = get_or q.packets q.head [] in
    if q.count == 0
    then (q, none)
    else if ltb out_buf_size (length packet)
    then (advance q, none)
    else (advance q, some packet)

unfoldable pub has_pending : PacketQueue → Bool
has_pending q = ltb 0 q.count

-- The queue's part of `Close`.
unfoldable pub clear_queue : PacketQueue → PacketQueue
clear_queue q = record q { head = 0; count = 0 }
