-- ===== src/Bridge/ControlQueue/Tests.antt =====
-- Concrete inputs for the theorems on the shared UDP queue.
use switch_lan_play_nx.Prelude.{◌≡◌, ◌≤◌, refl, some, [], ◌∷◌, replicate, length, arith}
use switch_lan_play_nx.Bridge.ControlQueue.{
  ControlPacket, file_packet, pop_control_packet_for_port, control_queue_size,
}
use switch_lan_play_nx.Bridge.ControlQueue.Ports.{
  waiting, file_packet-waiting, Popped, pop_control_packet_for_port-Popped,
}
use switch_lan_play_nx.Bridge.ControlQueue.Wedge.{uses, files, pops, uses-wedged}

abbrev scan : ControlPacket
scan = record { dst_port = 11452; bytes = 1 ∷ 2 ∷ [] }

abbrev stray : ControlPacket
stray = record { dst_port = 5353; bytes = 9 ∷ [] }

abbrev game_packet : ControlPacket
game_packet = record { dst_port = 49152; bytes = 3 ∷ [] }

pops_its_own :
    pop_control_packet_for_port 49152 (scan ∷ game_packet ∷ stray ∷ [])
    ≡ some (game_packet, scan ∷ stray ∷ [])
unfolding pop_control_packet_for_port
pops_its_own = refl

file_packet-waiting_example :
    (waiting 49152 (file_packet (scan ∷ []) 49152 (7 ∷ [])) ≡ (7 ∷ []) ∷ [])
    × (length (file_packet (scan ∷ []) 49152 (7 ∷ [])) ≤ control_queue_size)
file_packet-waiting_example =
    file_packet-waiting (scan ∷ []) 49152 (7 ∷ []) 49152 (omega arith) (omega arith)

pop_control_packet_for_port-Popped_example :
    Popped 49152
      (scan ∷ game_packet ∷ [])
      (pop_control_packet_for_port 49152 (scan ∷ game_packet ∷ []))
pop_control_packet_for_port-Popped_example =
    pop_control_packet_for_port-Popped 49152 (scan ∷ game_packet ∷ [])

uses-wedged_example :
    uses (files 49152 (7 ∷ []) ∷ pops 49152 ∷ []) (replicate 32 stray) ≡ replicate 32 stray
uses-wedged_example =
    uses-wedged 5353 (files 49152 (7 ∷ []) ∷ pops 49152 ∷ []) (replicate 32 stray) (ground arith)
      refl (ground arith)
