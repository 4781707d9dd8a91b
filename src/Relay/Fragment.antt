-- ===== src/Relay/Fragment.antt =====
-- The sending side of `RelayBridge` (source/relay_bridge.hpp): `SendRaw`, `SendIpv4` and
-- `SendFragmented`. The socket is a list of what `::sendto` says to each further call.
pub mod Frames
use switch_lan_play_nx.Prelude.{
  ℕ, zero, suc, ◌+◌, ◌-◌, ◌/◌, Bool, true, false, Option, none, some, List, [], ◌∷◌, ◌++◌, length,
  get_or, take, drop, ltb, leb, if◌then◌else◌, u8, u16, bytes16,
}

-- `RelayFrameType`, as the byte on the wire.
pub data RelayFrameType : Type 0 where
  keepalive ipv4 ping ipv4_frag auth_me : RelayFrameType

abbrev pub type_byte : RelayFrameType → ℕ
type_byte keepalive = 0
type_byte ipv4 = 1
type_byte ping = 2
type_byte ipv4_frag = 3
type_byte auth_me = 4

abbrev pub relay_mtu : ℕ
relay_mtu = 1400

-- `sizeof(FragHeader)`
abbrev pub frag_header_len : ℕ
frag_header_len = 16

-- `constexpr size_t chunk`
abbrev pub chunk : ℕ
chunk = 1384

-- The relay socket: the datagrams that it took, and its answers to the calls still to come.
-- Where the answers run out it takes everything.
pub record Wire : Type 0 where
  pub sent : List (List ℕ)
  pub refusals : List Bool

pub record Sender : Type 0 where
  pub connected : Bool
  pub next_frag_id : ℕ
  pub wire : Wire

abbrev sendto_answer : List (List ℕ) → List ℕ → List Bool → Wire × Option ℕ
sendto_answer sent frame [] =
    (record { sent = sent ++ frame ∷ []; refusals = [] }, some (length frame))
sendto_answer sent frame (true ∷ rest) = (record { sent = sent; refusals = rest }, none)
sendto_answer sent frame (false ∷ rest) =
    (record { sent = sent ++ frame ∷ []; refusals = rest }, some (length frame))

-- `::sendto`, -1 as `none`.
unfoldable pub sendto : Wire → List ℕ → Wire × Option ℕ
sendto w frame = sendto_answer w.sent frame w.refusals

unfoldable pub send_raw : Sender → List ℕ → Sender × Option ℕ
send_raw s frame =
    if s.connected
    then (let (w, rc) = sendto s.wire frame in (record s { wire = w }, rc))
    else (s, none)

-- What `SendFragmented` fixes before its loop.
pub record Split : Type 0 where
  pub packet : List ℕ
  pub id : ℕ
  pub total_part : ℕ

-- `memcpy(ip, bytes + at, 4)`
abbrev pub four_bytes : List ℕ → ℕ → List ℕ
four_bytes bytes at =
    get_or bytes at 0
    ∷ get_or bytes (at + 1) 0
    ∷ get_or bytes (at + 2) 0
    ∷ get_or bytes (at + 3) 0
    ∷ []

-- `buf`: the frame type, the `FragHeader`, and the bytes of the part.
abbrev pub frag_frame : Split → ℕ → List ℕ → List ℕ
frag_frame f part bytes =
    type_byte ipv4_frag
    ∷ (four_bytes f.packet 12
        ++ four_bytes f.packet 16
        ++ bytes16 f.id
        ++ u8 part ∷ u8 f.total_part ∷ (bytes16 (u16 (length bytes)) ++ bytes16 chunk ++ bytes))

-- `part_len` at `pos`.
abbrev pub part_len : List ℕ → ℕ → ℕ
part_len packet pos = if ltb (length packet - pos) chunk then length packet - pos else chunk

-- The loop over the parts; true where every part was sent.
unfoldable pub send_parts : ℕ → ℕ → ℕ → Split → Sender → Sender × Bool
send_parts zero part pos f s = (s, true)
send_parts (suc rounds) part pos f s =
    let n = part_len f.packet pos in
    let (s', rc) = send_raw s (frag_frame f part (take n (drop pos f.packet))) in
    elim rc [ none ↦ (s', false) | some _ ↦ send_parts rounds (part + 1) (pos + n) f s' ]

unfoldable pub send_fragmented : Sender → List ℕ → Sender × Option ℕ
send_fragmented s packet =
    let total_part = (length packet + chunk - 1) / chunk in
    let f : Split = record { packet = packet; id = s.next_frag_id; total_part = total_part } in
    let s₁ : Sender = record s { next_frag_id = u16 (s.next_frag_id + 1) } in
    let (s₂, done) = send_parts total_part 0 0 f s₁ in
    if ltb 0xff total_part then (s, none) else (s₂, if done then some (length packet) else none)

unfoldable pub send_ipv4 : Sender → List ℕ → Sender × Option ℕ
send_ipv4 s packet =
    if s.connected
    then (if leb (length packet) relay_mtu
        then send_raw s (type_byte ipv4 ∷ packet)
        else send_fragmented s packet)
    else (s, none)
