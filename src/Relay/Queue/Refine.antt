-- ===== src/Relay/Queue/Refine.antt =====
-- The ring of 64 slots is a first-in first-out queue of at most 64 packets.
use switch_lan_play_nx.Prelude.{
  ℕ, zero, suc, ◌+◌, ◌-◌, ◌%◌, ◌≤◌, ◌<◌, ◌≡◌, refl, ap, ap₂, ◌∙◌, ◌≢◌, Bool, Option, none, some,
  List, [], ◌∷◌, ◌++◌, arith, ltb, leb, if◌then◌else◌, length, get_or, set, length-set,
}
use switch_lan_play_nx.Relay.Queue.{PacketQueue, queue_size, push_packet, pop_ipv4, has_pending}

pub record IsValid (q : PacketQueue) : Type 0 where
  pub size : length q.packets ≡ queue_size
  pub head_in : q.head < queue_size
  pub count_in : q.count ≤ queue_size

-- The `n` packets from position `pos` on, taken round the ring.
abbrev items : List (List ℕ) → ℕ → ℕ → List (List ℕ)
items packets pos zero = []
items packets pos (suc n) = get_or packets (pos % queue_size) [] ∷ items packets (suc pos) n

-- What the queue holds, oldest first.
abbrev pub contents : PacketQueue → List (List ℕ)
contents q = items q.packets q.head q.count

length-contents : (q : PacketQueue) → length (contents q) ≡ q.count
length-contents q = go q.head q.count
  where
    go : (pos n : ℕ) → length (items q.packets pos n) ≡ n
    go pos zero = refl
    go pos (suc n) = ap suc (go (suc pos) n)

get_or-set_self :
    (xs : List (List ℕ)) (i : ℕ) (v : List ℕ) → i < length xs → get_or (set xs i v) i [] ≡ v
get_or-set_self [] i v h = absurd (omega arith)
get_or-set_self (x ∷ xs) zero v h = refl
get_or-set_self (x ∷ xs) (suc i) v h = get_or-set_self xs i v (omega arith)

get_or-set_ne :
    (xs : List (List ℕ)) (i j : ℕ) (v : List ℕ) → i ≢ j → get_or (set xs i v) j [] ≡ get_or xs j []
get_or-set_ne [] i j v h = refl
get_or-set_ne (x ∷ xs) zero zero v h = absurd (h refl)
get_or-set_ne (x ∷ xs) zero (suc j) v h = refl
get_or-set_ne (x ∷ xs) (suc i) zero v h = refl
get_or-set_ne (x ∷ xs) (suc i) (suc j) v h = get_or-set_ne xs i j v (λ e. h (ap suc e))

-- Only the position round the ring matters.
items-mod :
    (packets : List (List ℕ)) (a b n : ℕ)
    → a % queue_size ≡ b % queue_size
    → items packets a n ≡ items packets b n
items-mod packets a b zero h = refl
items-mod packets a b (suc n) h =
    ap₂ ◌∷◌ (ap (λ i. get_or packets i []) h) (items-mod packets (suc a) (suc b) n (omega arith))

-- A write just past the last item adds it at the end.
items-set :
    (packets : List (List ℕ)) (pos n : ℕ) (v : List ℕ)
    → length packets ≡ queue_size
    → n < queue_size
    → items (set packets ((pos + n) % queue_size) v) pos (suc n) ≡ items packets pos n ++ v ∷ []
items-set packets pos zero v h k =
    ap (λ x. x ∷ [])
      (ap (λ i. get_or (set packets i v) (pos % queue_size) []) {x = (pos + 0) % queue_size}
          {y = pos % queue_size} (omega arith)
        ∙ get_or-set_self packets (pos % queue_size) v (omega arith))
items-set packets pos (suc n) v h k =
    ap₂ ◌∷◌ (get_or-set_ne packets ((pos + suc n) % queue_size) (pos % queue_size) v (omega arith))
      (ap (λ i. items (set packets i v) (suc pos) (suc n)) {x = (pos + suc n) % queue_size}
          {y = (suc pos + n) % queue_size} (omega arith)
        ∙ items-set packets (suc pos) n v h (omega arith))

items-suc :
    (packets : List (List ℕ)) (pos n : ℕ)
    → n ≢ 0
    → items packets pos n ≡ get_or packets (pos % queue_size) [] ∷ items packets (suc pos) (n - 1)
items-suc packets pos zero h = absurd (h refl)
items-suc packets pos (suc n) h = ap (λ k. items packets pos (suc k)) (omega arith)

-- The abstract queue.
abbrev push_spec : List (List ℕ) → List ℕ → List (List ℕ)
push_spec l packet = if ltb (length l) queue_size then l ++ packet ∷ [] else l

-- A packet that is too big for the caller is dropped.
abbrev pop_spec : List (List ℕ) → ℕ → List (List ℕ) × Option (List ℕ)
pop_spec [] size = ([], none)
pop_spec (packet ∷ l) size = (l, if leb (length packet) size then some packet else none)

-- On a valid queue `PumpLoop` appends the packet unless 64 wait already, and the queue stays valid.
push_packet_refines :
    (q : PacketQueue) (packet : List ℕ)
    → IsValid q
    → (contents (push_packet q packet) ≡ push_spec (contents q) packet)
      × IsValid (push_packet q packet)
unfolding push_packet
push_packet_refines q packet v = ground (
  arith,
  length-contents q,
  items-set q.packets q.head q.count packet v.size,
  length-set q.packets ((q.head + q.count) % queue_size) packet,
)

-- On a valid queue `PopIpv4` takes the oldest packet off and returns it, or drops it if it is too
-- big for the buffer, and returns 0 on the empty queue; `HasPending` tells which, and the queue
-- stays valid.
pop_ipv4_refines :
    (q : PacketQueue) (size : ℕ)
    → IsValid q
    → let (q', r) = pop_ipv4 q size in
      ((contents q', r) ≡ pop_spec (contents q) size)
      × IsValid q'
      × (has_pending q ≡ ltb 0 (length (contents q)))
unfolding pop_ipv4 has_pending
pop_ipv4_refines q size v = (
  ground (
    arith,
    items-suc q.packets q.head q.count,
    items-mod q.packets (suc q.head) ((q.head + 1) % queue_size) (q.count - 1),
    ap (λ i. get_or q.packets i []) {x = q.head % queue_size} {y = q.head} (omega arith),
  ),
  ground arith,
  rw (length-contents q) refl,
)

-- What the pump and the drain do to the queue: a packet comes in, or one is asked for.
pub data QueueUse : Type 0 where
  push : List ℕ → QueueUse
  pop : ℕ → QueueUse

-- What each `pop` gives, with the answer of HasPending before it.
unfoldable pub run_queue : PacketQueue → List QueueUse → List (Bool × Option (List ℕ))
run_queue q [] = []
run_queue q (push packet ∷ uses) = run_queue (push_packet q packet) uses
run_queue q (pop size ∷ uses) =
    let (q', r) = pop_ipv4 q size in (has_pending q, r) ∷ run_queue q' uses

unfoldable pub run_spec : List (List ℕ) → List QueueUse → List (Bool × Option (List ℕ))
run_spec l [] = []
run_spec l (push packet ∷ uses) = run_spec (push_spec l packet) uses
run_spec l (pop size ∷ uses) =
    let (l', r) = pop_spec l size in (ltb 0 (length l), r) ∷ run_spec l' uses

-- On a valid ring, any sequence of packets that come in and of calls of PopIpv4 with any buffer
-- sizes gives exactly what a plain queue of 64 places gives that holds the ring's contents, oldest
-- first: a packet for which there is no place is dropped, each call takes the oldest packet off
-- and returns it or drops it if it is too big for the buffer, and HasPending tells before each
-- call whether the queue holds anything.
pub run_queue_refines :
    (uses : List QueueUse) (q : PacketQueue)
    → IsValid q
    → run_queue q uses ≡ run_spec (contents q) uses
unfolding run_queue run_spec
run_queue_refines [] q v = refl
run_queue_refines (push packet ∷ uses) q v =
    let (same, v') = push_packet_refines q packet v in
    run_queue_refines uses (push_packet q packet) v' ∙ ap (λ l. run_spec l uses) same
run_queue_refines (pop size ∷ uses) q v =
    let (same, v', pending) = pop_ipv4_refines q size v in
    let (q', r) = pop_ipv4 q size in
    ap (λ rest. (has_pending q, r) ∷ rest) (run_queue_refines uses q' v')
    ∙ ap₂ (λ (b : Bool) (t : List (List ℕ) × Option (List ℕ)). (b, t.1) ∷ run_spec t.0 uses) pending
        same

module _ (q : PacketQueue) (size : ℕ) (v : IsValid q) (empty : q.count ≡ 0) where
  contents_empty : contents q ≡ []
  contents_empty = ap (items q.packets q.head) empty

  pub pop_ipv4_empty : (pop_ipv4 q size).1 ≡ none
  pop_ipv4_empty =
      ap (λ (x : List (List ℕ) × Option (List ℕ)). x.1) (pop_ipv4_refines q size v).0
      ∙ ap (λ l. (pop_spec l size).1) contents_empty

  pub pop_ipv4-push_packet :
      (p : List ℕ)
      → (pop_ipv4 (push_packet q p) size).1 ≡ (if leb (length p) size then some p else none)
  pop_ipv4-push_packet p =
      let (same, v') = push_packet_refines q p v in
      ap (λ (x : List (List ℕ) × Option (List ℕ)). x.1)
        (pop_ipv4_refines (push_packet q p) size v').0
      ∙ ap (λ l. (pop_spec l size).1) (same ∙ ap (λ l. push_spec l p) contents_empty)
