-- ===== src/Bridge/ControlQueue/Ports.antt =====
-- Each port sees a first-in first-out queue of its own, but all of them share the 32 places.
use switch_lan_play_nx.Prelude.{
  ℕ, suc, ◌≤◌, min, ◌≡◌, refl, sym, ap, ◌∙◌, ◌≢◌, true, false, ◌&&◌, not, Option, none, some, List,
  [], ◌∷◌, ◌++◌, append-nil, arith, ltb, ◌==◌, if◌then◌else◌, if_true, if_false, if_elim, length,
  take, length-append, take_all,
}
use switch_lan_play_nx.Bridge.ControlQueue.{
  ControlPacket, control_queue_size, control_data_len, file_packet, pop_control_packet_for_port,
  has_packet_for,
}

-- What waits for a port, oldest first.
abbrev pub waiting : ℕ → List ControlPacket → List (List ℕ)
waiting port [] = []
waiting port (p ∷ queue) =
    if p.dst_port == port then p.bytes ∷ waiting port queue else waiting port queue

waiting-append :
    (port : ℕ) (queue more : List ControlPacket)
    → waiting port (queue ++ more) ≡ waiting port queue ++ waiting port more
waiting-append port [] more = refl
waiting-append port (p ∷ queue) more = ground (arith, waiting-append port queue more)

module _ (port : ℕ) (p : ControlPacket) (queue : List ControlPacket) where
  waiting_own :
      (p.dst_port == port) ≡ true → waiting port (p ∷ queue) ≡ p.bytes ∷ waiting port queue
  waiting_own h = if_true (p.dst_port == port) (p.bytes ∷ waiting port queue) (waiting port queue) h

  waiting_foreign : (p.dst_port == port) ≡ false → waiting port (p ∷ queue) ≡ waiting port queue
  waiting_foreign h =
      if_false (p.dst_port == port) (p.bytes ∷ waiting port queue) (waiting port queue) h

-- Filing a packet that fits a queue entry, in any state of the queue: with less than 32 packets
-- waiting it comes last for its own port and changes nothing for the other ports; otherwise it is
-- lost. The queue never holds more than 32 packets.
pub file_packet-waiting :
    (queue : List ControlPacket) (dst_port : ℕ) (pkt : List ℕ) (port : ℕ)
    → length pkt ≤ control_data_len
    → length queue ≤ control_queue_size
    → (waiting port (file_packet queue dst_port pkt) ≡ (
        if dst_port == port && ltb (length queue) control_queue_size
        then waiting port queue ++ pkt ∷ []
        else waiting port queue))
      × (length (file_packet queue dst_port pkt) ≤ control_queue_size)
unfolding file_packet
file_packet-waiting queue dst_port pkt port fits bound = ground (
  arith,
  waiting-append port queue
      (record { dst_port = dst_port; bytes = take (min (length pkt) control_data_len) pkt } ∷ []),
  take_all (min (length pkt) control_data_len) pkt,
  length-append queue
      (record { dst_port = dst_port; bytes = take (min (length pkt) control_data_len) pkt } ∷ []),
  append-nil (waiting port queue),
)

-- What a pop says of the queue of a port.
abbrev pub Popped : ℕ → List ControlPacket → Option (ControlPacket × List ControlPacket) → Type 0
Popped port queue none = waiting port queue ≡ []
Popped port queue (some (out, left)) =
    (waiting port queue ≡ out.bytes ∷ waiting port left)
    × (length queue ≡ suc (length left))
    × ((other : ℕ) → other ≢ port → waiting other left ≡ waiting other queue)

-- In any queue and for any port: PopControlPacketForPort gives the oldest packet of that port and
-- takes only it out, leaving every other port's packets as they were, or finds that the port has
-- none.
pub pop_control_packet_for_port-Popped :
    (port : ℕ) (queue : List ControlPacket)
    → Popped port queue (pop_control_packet_for_port port queue)
unfolding pop_control_packet_for_port
pop_control_packet_for_port-Popped port [] = refl
pop_control_packet_for_port-Popped port (p ∷ queue) =
    go (pop_control_packet_for_port port queue) (pop_control_packet_for_port-Popped port queue)
  where
    go :
        (rest : Option (ControlPacket × List ControlPacket))
        → Popped port queue rest
        → Popped port (p ∷ queue) (
            if not (p.dst_port == port)
            then (elim rest [ none ↦ none | some (out, left) ↦ some (out, p ∷ left) ])
            else some (p, queue))
    go none h =
        if_elim (Popped port (p ∷ queue)) (not (p.dst_port == port)) none (some (p, queue))
          (λ foreign. waiting_foreign port p queue (ground arith) ∙ h)
          (λ own. (
            waiting_own port p queue (ground arith),
            refl,
            λ other apart. sym (waiting_foreign other p queue (ground arith)),
          ))
    go (some (out, left)) h =
        if_elim (Popped port (p ∷ queue)) (not (p.dst_port == port)) (some (out, p ∷ left))
          (some (p, queue))
          (λ foreign. (
            waiting_foreign port p queue (ground arith)
                ∙ h.0
                ∙ ap (◌∷◌ out.bytes) (sym (waiting_foreign port p left (ground arith))),
            ap suc h.1,
            λ other apart. kept other (h.2 other apart),
          ))
          (λ own. (
            waiting_own port p queue (ground arith),
            refl,
            λ other apart. sym (waiting_foreign other p queue (ground arith)),
          ))
      where
        kept :
            (other : ℕ)
            → waiting other left ≡ waiting other queue
            → waiting other (p ∷ left) ≡ waiting other (p ∷ queue)
        kept other same = ap (λ l. if p.dst_port == other then p.bytes ∷ l else l) same

has_packet_for-waiting :
    (port : ℕ) (queue : List ControlPacket)
    → has_packet_for port queue ≡ not (length (waiting port queue) == 0)
unfolding has_packet_for
has_packet_for-waiting port [] = refl
has_packet_for-waiting port (p ∷ queue) = ground (arith, has_packet_for-waiting port queue)
