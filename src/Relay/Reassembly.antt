-- ===== src/Relay/Reassembly.antt =====
-- The receiving side of `RelayBridge` (source/relay_bridge.hpp): `RecvIpv4` and `ReassembleFrag`.
-- A slot's buffer is the list of its 5600 bytes, and `id`, masks and lengths are numbers within
-- their widths.
pub mod Slots
pub mod Parts
pub mod RoundTrip
use switch_lan_play_nx.Prelude.{
  ℕ, suc, ◌+◌, ◌-◌, ◌*◌, ◌%◌, ◌^◌, Bool, true, false, ◌&&◌, ◌||◌, not, Option, none, some, List, [],
  ◌∷◌, ◌++◌, length, get_or, take, drop, set, ltb, leb, ◌==◌, if◌then◌else◌, be16, bit_or,
}
use switch_lan_play_nx.Relay.Fragment.{relay_mtu, frag_header_len}

pub record ReassemblySlot : Type 0 where
  pub used : Bool
  pub id : ℕ
  pub src_ip : List ℕ
  pub part_mask : ℕ
  pub total_len : ℕ
  pub buffer : List ℕ

pub record Reassembler : Type 0 where
  pub slots : List ReassemblySlot
  pub most_success_frag_id : ℕ

-- `sizeof(slot->buffer)`
abbrev pub buffer_len : ℕ
buffer_len = 5600

-- The fields of `FragHeader` that are read, in host order.
pub record FragHeader : Type 0 where
  pub src_ip : List ℕ
  pub id : ℕ
  pub part : ℕ
  pub total_part : ℕ
  pub len : ℕ
  pub pmtu : ℕ

abbrev pub frag_header : List ℕ → FragHeader
frag_header bytes = record {
  src_ip = take 4 bytes;
  id = be16 (get_or bytes 8 0) (get_or bytes 9 0);
  part = get_or bytes 10 0;
  total_part = get_or bytes 11 0;
  len = be16 (get_or bytes 12 0) (get_or bytes 13 0);
  pmtu = be16 (get_or bytes 14 0) (get_or bytes 15 0);
}

-- `memcmp(...) == 0` on byte strings of one length.
unfoldable pub bytes_eq : List ℕ → List ℕ → Bool
bytes_eq [] [] = true
bytes_eq [] (y ∷ ys) = false
bytes_eq (x ∷ xs) [] = false
bytes_eq (x ∷ xs) (y ∷ ys) = x == y && bytes_eq xs ys

-- `memcpy(buffer + at, bytes, ...)`
abbrev pub write_at : List ℕ → ℕ → List ℕ → List ℕ
write_at buffer at bytes = take at buffer ++ (bytes ++ drop (at + length bytes) buffer)

abbrev pub next_slot : Option (ℕ × ReassemblySlot) → Option (ℕ × ReassemblySlot)
next_slot none = none
next_slot (some (i, s)) = some (suc i, s)

-- The first slot that passes a test, with its index.
unfoldable pub find_slot :
    (ReassemblySlot → Bool) → List ReassemblySlot → Option (ℕ × ReassemblySlot)
find_slot test [] = none
find_slot test (s ∷ slots) = if test s then some (0, s) else next_slot (find_slot test slots)

abbrev pub in_group : ℕ → List ℕ → ReassemblySlot → Bool
in_group id src s = s.used && (s.id == id && bytes_eq s.src_ip src)

-- `abs(s.id - last)` on `int`.
abbrev drift : ℕ → ℕ → ℕ
drift a b = a - b + (b - a)

-- The loop for the most stale slot: `max_dist` and `to_evict` so far, and the next index.
unfoldable pub most_stale :
    ℕ → List ReassemblySlot → ℕ → ℕ → Option (ℕ × ReassemblySlot) → ℕ × Option (ℕ × ReassemblySlot)
most_stale last [] i max_dist to_evict = (max_dist, to_evict)
most_stale last (s ∷ slots) i max_dist to_evict =
    let d = drift s.id last in
    let better = s.used && ltb max_dist d in
    most_stale last slots (i + 1) (if better then d else max_dist)
      (if better then some (i, s) else to_evict)

-- What a claimed slot starts from.
abbrev pub claim : ℕ → List ℕ → ReassemblySlot → ReassemblySlot
claim id src s = record s { used = true; id = id; part_mask = 0; total_len = 0; src_ip = src }

abbrev evict : ℕ → List ℕ → ℕ × Option (ℕ × ReassemblySlot) → Option (ℕ × ReassemblySlot)
evict id src (d, none) = none
evict id src (d, some (i, s)) = if ltb 10 d then some (i, claim id src s) else none

-- The slot for a fragment: its group's, else a free one, else the most stale one; the last two
-- are claimed. `none` where the fragment is dropped.
unfoldable pub choose_slot : Reassembler → ℕ → List ℕ → Option (ℕ × ReassemblySlot)
choose_slot r id src = elim (find_slot (in_group id src) r.slots) [
  | some found ↦ some found
  | none ↦ elim (find_slot (λ s. not s.used) r.slots) [
    | some (i, s) ↦ some (i, claim id src s)
    | none ↦ evict id src (most_stale r.most_success_frag_id r.slots 0 0 none)
  ]
]

abbrev pub expected_mask : ℕ → ℕ
expected_mask total_part = if leb 32 total_part then 2 ^ 32 - 1 else 2 ^ total_part - 1

-- The part written into the slot.
unfoldable pub add_part : FragHeader → List ℕ → ReassemblySlot → ReassemblySlot
add_part h bytes s = record s {
  buffer = write_at s.buffer (h.part * h.pmtu) bytes;
  part_mask = bit_or s.part_mask (2 ^ h.part);
  total_len =
      if h.part + 1 == h.total_part then (h.total_part - 1) * h.pmtu + h.len else s.total_len;
}

-- The end of `ReassembleFrag`: the slot, and the packet if it is complete and fits `out_buf`.
unfoldable pub finish : ℕ → ℕ → ReassemblySlot → ReassemblySlot × Option (List ℕ)
finish total_part out_buf_size s =
    if s.part_mask == expected_mask total_part && ltb 0 s.total_len
    then (
      record s { used = false },
      if ltb out_buf_size s.total_len then none else some (take s.total_len s.buffer),
    )
    else (s, none)

unfoldable pub accumulate :
    FragHeader → List ℕ → ℕ → ReassemblySlot → ReassemblySlot × Option (List ℕ)
accumulate h bytes out_buf_size s =
    if leb 32 h.part || ltb buffer_len (h.part * h.pmtu + h.len)
    then (record s { used = false }, none)
    else finish h.total_part out_buf_size (add_part h bytes s)

-- `m_most_success_frag_id` moves with a packet that is handed out.
abbrev pub store :
    Reassembler → ℕ → ℕ → ReassemblySlot × Option (List ℕ) → Reassembler × Option (List ℕ)
store r i id (s, none) = (record r { slots = set r.slots i s }, none)
store r i id (s, some packet) =
    (record { slots = set r.slots i s; most_success_frag_id = id }, some packet)

unfoldable pub reassemble_frag : Reassembler → List ℕ → ℕ → Reassembler × Option (List ℕ)
reassemble_frag r bytes out_buf_size =
    let h = frag_header bytes in
    let chunk_data = drop frag_header_len bytes in
    if ltb (length bytes) frag_header_len
    then (r, none)
    else if ltb (length chunk_data) h.len
    then (r, none)
    else elim (choose_slot r h.id h.src_ip) [
      | none ↦ (r, none)
      | some (i, s) ↦ store r i h.id (accumulate h (take h.len chunk_data) out_buf_size s)
    ]

-- The three results of `RecvIpv4`: 1 with the packet, 0 and -1.
pub data Received : Type 0 where
  packet : List ℕ → Received
  handled no_data : Received

abbrev pub of_frag : Reassembler × Option (List ℕ) → Reassembler × Received
of_frag (r, none) = (r, handled)
of_frag (r, some p) = (r, packet p)

-- The `switch` on the frame type. `KEEPALIVE`, `PING`, `AUTH_ME` and the rest fall through.
unfoldable pub dispatch_frame : Reassembler → ℕ → List ℕ → Reassembler × Received
dispatch_frame r out_buf_size [] = (r, no_data)
dispatch_frame r out_buf_size (type ∷ rest) =
    if type % 2 ^ 7 == 1
    then (if ltb out_buf_size (length rest) then (r, no_data) else (r, packet rest))
    else if type % 2 ^ 7 == 3
    then (if ltb (suc (length rest)) (1 + frag_header_len)
        then (r, handled)
        else of_frag (reassemble_frag r rest out_buf_size))
    else (r, handled)

-- One datagram of the relay, cut to `raw` by `::recvfrom`.
unfoldable pub recv_ipv4 : Reassembler → List ℕ → ℕ → Reassembler × Received
unfolding dispatch_frame
recv_ipv4 r datagram out_buf_size =
    dispatch_frame r out_buf_size (take (1 + relay_mtu + frag_header_len) datagram)

-- The packets that one call after the other hands out.
unfoldable pub recv_all : Reassembler → List (List ℕ) → ℕ → Reassembler × List (List ℕ)
recv_all r [] out_buf_size = (r, [])
recv_all r (datagram ∷ datagrams) out_buf_size =
    let (r', result) = recv_ipv4 r datagram out_buf_size in
    let (r'', packets) = recv_all r' datagrams out_buf_size in
    (r'', elim result [ packet p ↦ p ∷ packets | _ ↦ packets ])
