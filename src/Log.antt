-- ===== src/Log.antt =====
-- The log of source/debug.cpp. What the file system does with a call is an argument, and so are the
-- bytes that the formatting of a line gives; the file handle is open within a call only.
pub mod Follow
pub mod Runs
pub mod Dump
mod Tests
use switch_lan_play_nx.Prelude.{
  ℕ, zero, suc, ◌+◌, ◌-◌, ◌*◌, ◌/◌, ◌%◌, ◌^◌, ◌≤◌, ◌<◌, compare, Ordering, bit_or, min, ◌≡◌, refl,
  sym, ap, ap₂, subst, ◌∙◌, ◌≡⟨◌⟩◌, ◌∎, ◌≢◌, ◌⊎◌, inl, inr, ◌↔◌, Bool, true, false, ◌&&◌, ◌||◌, not,
  Option, none, some, List, [], ◌∷◌, ◌++◌, map, append-nil, append_assoc, arith, first,
  update_first, first-passes, update_first-none, first-update_first, first-update_first_ne,
  update_first-agree, first-update_first_new, first-narrow, ltb, leb, ◌==◌, if◌then◌else◌, ltb→lt,
  lt→ltb, le→ltb, leb→le, le→leb, lt→leb, ==_iff, ==_refl, ne→==, Bool-cases, Option-cases, ◌>>=◌,
  if_true, if_false, if_elim, split_first, All, All-append, All-mono, Lacks, split_first-last,
  split_first-append, Rejoins, split_first-Rejoins, length, get_elem?, get_or, set, take, drop,
  replicate, length-append, length-set, length-take, length-drop, take-append-drop, take_all,
  take-append, drop-append, take-add, take-take, get_elem?-set_self, get_elem?-set_ne, get_elem?-lt,
  length-replicate, u8, u16, u32, add32, sub64, has_bit, be16, be32, bytes16, bytes32, be16-bytes,
  be32-bytes,
}

-- What the file system does while the log makes one call.
pub record FileSystem : Type 0 where
  -- `HasFile`, `CreateFile`, `OpenFile` and `GetFileSize` succeed.
  pub tells : Bool
  pub creates : Bool
  pub opens : Bool
  pub sizes : Bool
  -- `WriteFile` number `k` of the call, on these contents, at an offset: the contents after it.
  pub write_file : (k : ℕ) (contents : List ℕ) (offset : ℕ) (bytes : List ℕ) → Option (List ℕ)

-- `g_logging_enabled`, the contents of the log file if there is one, and `LogOffset`.
pub record Log : Type 0 where
  pub enabled : Bool
  pub file : Option (List ℕ)
  pub offset : ℕ

abbrev pub at_boot : Option (List ℕ) → Log
at_boot file = record { enabled = true; file = file; offset = 0 }

-- The result says whether the file is open.
unfoldable pub open_log_file_for_append : FileSystem → Log → Log × Bool
open_log_file_for_append fs l =
    let created : Log = record l { file = some []; offset = 0 } in
    if not fs.tells then (l, false) else elim l.file [
      | some contents ↦ (l, fs.opens)
      | none ↦ if not fs.creates then (l, false) else (created, fs.opens)
    ]

-- `OpenFile` and `GetFileSize` of `Initialize`.
abbrev take_size : FileSystem → List ℕ → Log → Log × Bool
take_size fs contents l =
    if fs.opens && fs.sizes then (record l { offset = length contents }, true) else (l, false)

unfoldable pub initialize : FileSystem → Log → Log × Bool
initialize fs l =
    let created : Log = record l { file = some [] } in
    if not l.enabled then (l, true) else if not fs.tells then (l, false) else elim l.file [
      | some contents ↦ take_size fs contents l
      | none ↦ if not fs.creates then (l, false) else take_size fs [] created
    ]

unfoldable pub set_logging : FileSystem → ℕ → Log → Log × Bool
set_logging fs enabled l =
    let switched : Log = record l { enabled = not (enabled == 0) } in
    if not (enabled == 0) then initialize fs switched else (switched, true)

abbrev pub written : Option (List ℕ) → ℕ → Log → Log × Bool
written none n l = (l, false)
written (some contents) n l = (record l { file = some contents; offset = l.offset + n }, true)

-- `WriteFile` at `LogOffset`, which moves on if it succeeds.
unfoldable pub write_at_offset : FileSystem → ℕ → List ℕ → Log → Log × Bool
write_at_offset fs k bytes l = elim l.file [
  | none ↦ (l, false)
  | some contents ↦ written (fs.write_file k contents l.offset bytes) (length bytes) l
]

-- `LogPrefix`, and the line after it.
unfoldable pub write_line : FileSystem → (prefix text : List ℕ) → Log → Log
write_line fs prefix text l =
    let (l₁, ok) = write_at_offset fs 0 prefix l in
    let (l₂, _) = write_at_offset fs 1 text l₁ in if ok then l₂ else l₁

-- `LogStr`, with what is formatted for the prefix and for the line.
unfoldable pub log_str : FileSystem → (prefix text : List ℕ) → Log → Log
log_str fs prefix text l =
    let (l₁, opened) = open_log_file_for_append fs l in
    if l.enabled then (if opened then write_line fs prefix text l₁ else l₁) else l

abbrev pub hex_digit : ℕ → ℕ
hex_digit n = if ltb n 10 then b'0' + n else b'a' + (n - 10)

-- "%02x" of each byte.
abbrev pub hex_bytes : List ℕ → List ℕ → List ℕ
hex_bytes [] rest = rest
hex_bytes (b ∷ bytes) rest = hex_digit (b / 16) ∷ hex_digit (b % 16) ∷ hex_bytes bytes rest

abbrev pub hex_line : List ℕ → List ℕ
hex_line bytes = hex_bytes bytes (b'\n' ∷ [])

-- The loop of `LogHexImpl`; the fuel is the number of bytes left, of which a round takes one at
-- least.
unfoldable pub hex_lines : ℕ → FileSystem → ℕ → List ℕ → Log → Log
hex_lines zero fs k bytes l = l
hex_lines (suc fuel) fs k bytes l =
    let (l₁, ok) = write_at_offset fs k (hex_line (take 16 bytes)) l in
    let rest = hex_lines fuel fs (suc k) (drop 16 bytes) l₁ in
    if length bytes == 0 then l else if ok then rest else l₁

-- `LogHexImpl`: a line of its own with `prefix` and `text`, then the bytes.
unfoldable pub log_hex : (line dump : FileSystem) (prefix text bytes : List ℕ) → Log → Log
log_hex line dump prefix text bytes l =
    let (l₁, opened) = open_log_file_for_append dump (log_str line prefix text l) in
    if l.enabled then (if opened then hex_lines (length bytes) dump 0 bytes l₁ else l₁) else l
