-- ===== src/Bridge/ControlQueue.antt =====
-- `g_control_queue` of source/bsd/bsd_bridge_service.cpp: the UDP packets that wait for the process
-- bound to their destination port. `bytes` is the list of its first `len` bytes.
pub mod Ports
pub mod Wedge
mod Tests
use switch_lan_play_nx.Prelude.{
  ℕ, zero, suc, ◌+◌, ◌-◌, ◌*◌, ◌/◌, ◌%◌, ◌^◌, ◌≤◌, ◌<◌, compare, Ordering, bit_or, min, ◌≡◌, refl,
  sym, ap, ap₂, subst, ◌∙◌, ◌≡⟨◌⟩◌, ◌∎, ◌≢◌, ◌⊎◌, inl, inr, ◌↔◌, Bool, true, false, ◌&&◌, ◌||◌, not,
  Option, none, some, List, [], ◌∷◌, ◌++◌, map, append-nil, append_assoc, arith, first,
  update_first, first-passes, update_first-none, first-update_first, first-update_first_ne,
  update_first-agree, ltb, leb, ◌==◌, if◌then◌else◌, ltb→lt, lt→ltb, le→ltb, leb→le, le→leb, lt→leb,
  ==_iff, ==_refl, ne→==, Bool-cases, Option-cases, if_true, if_false, if_elim, length, get_elem?,
  get_or, set, take, drop, replicate, length-append, length-set, length-take, length-drop,
  take-append-drop, take_all, take-append, drop-append, take-add, take-take, get_elem?-set_self,
  get_elem?-set_ne, get_elem?-lt, length-replicate, u8, u16, u32, add32, sub64, has_bit, be16, be32,
  bytes16, bytes32, be16-bytes, be32-bytes,
}
use switch_lan_play_nx.Packet.Udp.{max_bridged_payload}

abbrev pub control_queue_size : ℕ
control_queue_size = 32

pub record ControlPacket : Type 0 where
  pub dst_port : ℕ
  pub bytes : List ℕ

-- `sizeof(slot.data)`
abbrev pub control_data_len : ℕ
control_data_len = 20 + 8 + max_bridged_payload

-- What `DrainRawRelayQueue` does with a UDP packet: a full queue drops it.
unfoldable pub file_packet : List ControlPacket → ℕ → List ℕ → List ControlPacket
file_packet queue dst_port pkt =
    if ltb (length queue) control_queue_size
    then queue
      ++ record { dst_port = dst_port; bytes = take (min (length pkt) control_data_len) pkt } ∷ []
    else queue

-- `PopControlPacketForPort`: the packet, and the rest moved up.
unfoldable pub pop_control_packet_for_port :
    ℕ → List ControlPacket → Option (ControlPacket × List ControlPacket)
pop_control_packet_for_port port [] = none
pop_control_packet_for_port port (p ∷ queue) =
    let rest = pop_control_packet_for_port port queue in
    if not (p.dst_port == port)
    then elim rest [ none ↦ none | some (out, left) ↦ some (out, p ∷ left) ]
    else some (p, queue)

-- The test of `VFdHasPendingRead` for a bridged socket.
unfoldable pub has_packet_for : ℕ → List ControlPacket → Bool
has_packet_for port [] = false
has_packet_for port (p ∷ queue) = p.dst_port == port || has_packet_for port queue
