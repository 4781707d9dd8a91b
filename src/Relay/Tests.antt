-- ===== src/Relay/Tests.antt =====
-- Runs and instances of the relay transport.
use switch_lan_play_nx.Prelude.{
  ℕ, ◌≤◌, ◌≡◌, refl, ◌≢◌, true, false, none, some, List, [], ◌∷◌, ◌++◌, arith, length, replicate,
  length-replicate,
}
use switch_lan_play_nx.Relay.Fragment.{
  Sender, sendto, send_raw, send_parts, send_fragmented, send_ipv4,
}
use switch_lan_play_nx.Relay.Fragment.Frames.{IsOpen}
use switch_lan_play_nx.Relay.Reassembly.{
  ReassemblySlot, Reassembler, buffer_len, recv_all, find_slot, bytes_eq,
}
use switch_lan_play_nx.Relay.Reassembly.RoundTrip.{recv_all-send_ipv4}
use switch_lan_play_nx.Relay.Queue.{PacketQueue, pop_ipv4}
use switch_lan_play_nx.Relay.Queue.Refine.{
  IsValid, contents, QueueUse, push, pop, run_queue, run_spec, run_queue_refines,
}
use switch_lan_play_nx.Relay.Pump.{RelayBridge, pump_loop, pump_buffer}
use switch_lan_play_nx.Relay.Pump.Drain.{push_all, pump_loop-drains, pop_ipv4-pump_loop-send_ipv4}

abbrev idle_slot : ReassemblySlot
idle_slot = record {
  used = false;
  id = 0;
  src_ip = 0 ∷ 0 ∷ 0 ∷ 0 ∷ [];
  part_mask = 0;
  total_len = 0;
  buffer = replicate 5600 0;
}

abbrev idle : Reassembler
idle = record {
  slots = idle_slot ∷ idle_slot ∷ idle_slot ∷ idle_slot ∷ [];
  most_success_frag_id = 0;
}

abbrev sender : Sender
sender = record { connected = true; next_frag_id = 7; wire = record { sent = []; refusals = [] } }

-- 60 packets round the end of the ring.
abbrev wrapped : PacketQueue
wrapped = record { head = 63; count = 2; packets = (2 ∷ []) ∷ replicate 62 [] ++ (1 ∷ []) ∷ [] }

abbrev no_packets : PacketQueue
no_packets = record { head = 0; count = 0; packets = replicate 64 [] }

abbrev bridge : RelayBridge
bridge = record {
  sender = sender;
  reassembler = idle;
  queue = no_packets;
  last_keepalive_tick = 0;
  relay_addr = (0, 0);
  pump_started = false;
  pump_stop = false;
}

-- 1500 bytes, which go out in two fragments.
abbrev big : List ℕ
big = replicate 1500 9

sender-IsOpen : IsOpen sender
sender-IsOpen = record { connected = refl; accepting = refl }

wrapped-IsValid : IsValid wrapped
wrapped-IsValid = record { size = refl; head_in = omega arith; count_in = omega arith }

contents-wrapped : contents wrapped ≡ (1 ∷ []) ∷ (2 ∷ []) ∷ []
contents-wrapped = refl

no_packets-IsValid : IsValid no_packets
no_packets-IsValid = record { size = refl; head_in = omega arith; count_in = omega arith }

abbrev queue_uses : List QueueUse
queue_uses = push (5 ∷ []) ∷ pop 1428 ∷ pop 0 ∷ pop 1428 ∷ pop 1428 ∷ []

-- The third packet is too big for the second caller.
run_queue_refines_example :
    run_queue wrapped queue_uses
    ≡ (true, some (1 ∷ [])) ∷ (true, none) ∷ (true, some (5 ∷ [])) ∷ (false, none) ∷ []
unfolding run_spec
run_queue_refines_example = run_queue_refines queue_uses wrapped wrapped-IsValid

big_fits : length big ≤ buffer_len
big_fits = omega (arith, length-replicate {A = ℕ} 1500 9)

recv_all-send_ipv4_example :
    let (s', result) = send_ipv4 sender big in
    (result ≢ none) × ((recv_all idle s'.wire.sent 2048).1 ≡ big ∷ [])
unfolding bytes_eq find_slot
recv_all-send_ipv4_example =
    recv_all-send_ipv4 sender big idle 2048 0 idle_slot sender-IsOpen refl (omega arith) big_fits
      refl refl (length-replicate {A = ℕ} 5600 0)

two_frames : length (send_ipv4 sender big).0.wire.sent ≡ 2
unfolding send_ipv4 send_fragmented send_parts send_raw sendto
two_frames = refl

pump_loop-drains_example :
    let (b', rest) = pump_loop (λ t. t) (5 ∷ 6 ∷ []) bridge ((1 ∷ 8 ∷ []) ∷ []) in
    let (r, packets) = recv_all idle ((1 ∷ 8 ∷ []) ∷ []) pump_buffer in
    (rest ≡ []) × (b'.reassembler ≡ r) × (b'.queue ≡ push_all no_packets packets)
pump_loop-drains_example =
    pump_loop-drains (λ t. t) (5 ∷ 6 ∷ []) bridge ((1 ∷ 8 ∷ []) ∷ []) (omega arith)

-- The 1500 bytes are lost.
pop_ipv4-pump_loop-send_ipv4_example :
    let (b', rest) = pump_loop (λ t. t) (5 ∷ 6 ∷ []) bridge (send_ipv4 sender big).0.wire.sent in
    (rest ≡ []) × ((pop_ipv4 b'.queue 2076).1 ≡ none)
unfolding bytes_eq find_slot
pop_ipv4-pump_loop-send_ipv4_example =
    pop_ipv4-pump_loop-send_ipv4 (λ t. t) (5 ∷ 6 ∷ []) sender big bridge 0 2076 idle_slot
      sender-IsOpen refl (omega arith) big_fits refl refl (length-replicate {A = ℕ} 5600 0)
      no_packets-IsValid refl (omega (arith, two_frames)) (omega arith)
