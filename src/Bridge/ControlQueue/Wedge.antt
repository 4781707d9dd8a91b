-- ===== src/Bridge/ControlQueue/Wedge.antt =====
-- The shared queue filled with packets of a port that nobody reads.
use switch_lan_play_nx.Prelude.{
  ℕ, ◌≡◌, refl, ap, ◌∙◌, ◌≢◌, Option, none, some, List, [], ◌∷◌, arith, ltb, if_false, length,
}
use switch_lan_play_nx.Bridge.ControlQueue.{
  ControlPacket, control_queue_size, file_packet, pop_control_packet_for_port,
}

pub data Use : Type 0 where
  files : ℕ → List ℕ → Use
  pops : ℕ → Use

abbrev pub popped :
    List ControlPacket → Option (ControlPacket × List ControlPacket) → List ControlPacket
popped queue none = queue
popped queue (some (out, left)) = left

unfoldable pub uses : List Use → List ControlPacket → List ControlPacket
uses [] queue = queue
uses (files dst_port pkt ∷ more) queue = uses more (file_packet queue dst_port pkt)
uses (pops port ∷ more) queue = uses more (popped queue (pop_control_packet_for_port port queue))

-- Every packet of the queue is for `port`.
abbrev AllFor : ℕ → List ControlPacket → Type 0
AllFor port [] = Unit {0}
AllFor port (p ∷ queue) = (p.dst_port ≡ port) × AllFor port queue

abbrev NeverPops : ℕ → List Use → Type 0
NeverPops port [] = Unit {0}
NeverPops port (files dst_port pkt ∷ more) = NeverPops port more
NeverPops port (pops other ∷ more) = (other ≢ port) × NeverPops port more

no_packet :
    (port other : ℕ) (queue : List ControlPacket)
    → AllFor port queue
    → other ≢ port
    → pop_control_packet_for_port other queue ≡ none
unfolding pop_control_packet_for_port
no_packet port other [] all apart = refl
no_packet port other (p ∷ queue) all apart = ground (arith, no_packet port other queue all.1 apart)

full_drops :
    (queue : List ControlPacket) (dst_port : ℕ) (pkt : List ℕ)
    → length queue ≡ control_queue_size
    → file_packet queue dst_port pkt ≡ queue
unfolding file_packet
full_drops queue dst_port pkt full =
    if_false (ltb (length queue) control_queue_size) _ queue (ground arith)

-- With 32 packets for one port waiting, any arrivals and any reads of other ports leave the queue
-- exactly as it is: whatever arrives for the other ports is lost.
pub uses-wedged :
    (port : ℕ) (more : List Use) (queue : List ControlPacket)
    → AllFor port queue
    → length queue ≡ control_queue_size
    → NeverPops port more
    → uses more queue ≡ queue
unfolding uses
uses-wedged port [] queue all full never = refl
uses-wedged port (files dst_port pkt ∷ more) queue all full never =
    ap (uses more) (full_drops queue dst_port pkt full) ∙ uses-wedged port more queue all full never
uses-wedged port (pops other ∷ more) queue all full never =
    ap (λ o. uses more (popped queue o)) (no_packet port other queue all never.0)
    ∙ uses-wedged port more queue all full never.1
