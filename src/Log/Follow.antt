-- ===== src/Log/Follow.antt =====
-- The log keeps its place in its file.
use switch_lan_play_nx.Prelude.{
  ℕ, zero, suc, ◌≡◌, refl, sym, ◌⊎◌, inl, inr, Bool, true, ◌&&◌, not, Option, none, some, List, [],
  ◌++◌, append-nil, append_assoc, arith, ◌==◌, if_elim, length, take, drop, length-append,
}
use switch_lan_play_nx.Log.{
  written, FileSystem, Log, at_boot, open_log_file_for_append, initialize, set_logging,
  write_at_offset, write_line, log_str, hex_lines, hex_line, log_hex,
}

-- A write at the end of a file that succeeds appends to it.
abbrev pub Appends : FileSystem → Type 0
Appends fs =
    (k : ℕ) (contents bytes : List ℕ)
    → (fs.write_file k contents (length contents) bytes ≡ none)
      ⊎ (fs.write_file k contents (length contents) bytes ≡ some (contents ++ bytes))

-- The offset is the size of the file.
abbrev pub InStep : Log → Type 0
InStep l = elim l.file [ none ↦ Unit {0} | some contents ↦ l.offset ≡ length contents ]

-- What the file held is still its beginning.
abbrev pub Extends : Option (List ℕ) → Option (List ℕ) → Type 0
Extends none later = Unit {0}
Extends (some contents) none = ⊥
Extends (some contents) (some later) = (more : List ℕ) × (later ≡ contents ++ more)

abbrev Follows : Log → Log → Type 0
Follows l l' = InStep l' × Extends l.file l'.file

pub Extends-refl : (file : Option (List ℕ)) → Extends file file
Extends-refl none = tt
Extends-refl (some contents) = ([], sym (append-nil contents))

pub Extends-trans : (a b c : Option (List ℕ)) → Extends a b → Extends b c → Extends a c
Extends-trans none b c h k = tt
Extends-trans (some x) none c h k = absurd h
Extends-trans (some x) (some y) none h k = k
Extends-trans (some x) (some y) (some z) (m, h) (n, k) = (m ++ n, rw k (rw h (append_assoc x m n)))

Follows-refl : (l : Log) → InStep l → Follows l l
Follows-refl l h = (h, Extends-refl l.file)

Follows-trans : (a b c : Log) → Follows a b → Follows b c → Follows a c
Follows-trans a b c h k = (k.0, Extends-trans a.file b.file c.file h.1 k.1)

abbrev log_of : Bool → Option (List ℕ) → ℕ → Log
log_of enabled file offset = record { enabled = enabled; file = file; offset = offset }

open-file :
    (fs : FileSystem) (enabled : Bool) (file : Option (List ℕ)) (offset : ℕ)
    → InStep (log_of enabled file offset)
    → Follows
        (log_of enabled file offset)
        (open_log_file_for_append fs (log_of enabled file offset)).0
unfolding open_log_file_for_append
open-file fs enabled none offset h = ground arith
open-file fs enabled (some contents) offset h =
    if_elim {A = Log × Bool} (λ p. Follows (log_of enabled (some contents) offset) p.0)
      (not fs.tells) _ _ (λ _. Follows-refl (log_of enabled (some contents) offset) h)
      (λ _. Follows-refl (log_of enabled (some contents) offset) h)

open_log_file_for_append-Follows :
    (fs : FileSystem) (l : Log) → InStep l → Follows l (open_log_file_for_append fs l).0
open_log_file_for_append-Follows fs l = open-file fs l.enabled l.file l.offset

written-Follows :
    (contents bytes : List ℕ) (enabled : Bool) (offset : ℕ) (later : Option (List ℕ))
    → offset ≡ length contents
    → (later ≡ none) ⊎ (later ≡ some (contents ++ bytes))
    → Follows
        (log_of enabled (some contents) offset)
        (written later (length bytes) (log_of enabled (some contents) offset)).0
written-Follows contents bytes enabled offset later h (inl e) =
    rw e (Follows-refl (log_of enabled (some contents) offset) h)
written-Follows contents bytes enabled offset later h (inr e) =
    rw e ((rw h (sym (length-append contents bytes))), (bytes, refl))

write-file :
    (fs : FileSystem) (k : ℕ) (bytes : List ℕ) (enabled : Bool) (file : Option (List ℕ))
    (offset : ℕ)
    → Appends fs
    → InStep (log_of enabled file offset)
    → Follows
        (log_of enabled file offset)
        (write_at_offset fs k bytes (log_of enabled file offset)).0
unfolding write_at_offset
write-file fs k bytes enabled none offset works h = (tt, tt)
write-file fs k bytes enabled (some contents) offset works h =
    written-Follows contents bytes enabled offset _ h (rw h (works k contents bytes))

write_at_offset-Follows :
    (fs : FileSystem) (k : ℕ) (bytes : List ℕ) (l : Log)
    → Appends fs
    → InStep l
    → Follows l (write_at_offset fs k bytes l).0
write_at_offset-Follows fs k bytes l = write-file fs k bytes l.enabled l.file l.offset

write_line-Follows :
    (fs : FileSystem) (prefix text : List ℕ) (l : Log)
    → Appends fs
    → InStep l
    → Follows l (write_line fs prefix text l)
unfolding write_line
write_line-Follows fs prefix text l works h =
    let l₁ = (write_at_offset fs 0 prefix l).0 in
    let first = write_at_offset-Follows fs 0 prefix l works h in
    if_elim (Follows l) (write_at_offset fs 0 prefix l).1 (write_at_offset fs 1 text l₁).0 l₁
      (λ _.
        Follows-trans l l₁ (write_at_offset fs 1 text l₁).0 first
          (write_at_offset-Follows fs 1 text l₁ works first.0))
      (λ _. first)

pub log_str-Follows :
    (fs : FileSystem) (prefix text : List ℕ) (l : Log)
    → Appends fs
    → InStep l
    → Follows l (log_str fs prefix text l)
unfolding log_str
log_str-Follows fs prefix text l works h =
    let l₁ = (open_log_file_for_append fs l).0 in
    let opened = open_log_file_for_append-Follows fs l h in
    if_elim (Follows l) l.enabled _ l
      (λ _.
        if_elim (Follows l) (open_log_file_for_append fs l).1 (write_line fs prefix text l₁) l₁
          (λ _.
            Follows-trans l l₁ (write_line fs prefix text l₁) opened
              (write_line-Follows fs prefix text l₁ works opened.0))
          (λ _. opened))
      (λ _. Follows-refl l h)

hex_lines-Follows :
    (fuel : ℕ) (fs : FileSystem) (k : ℕ) (bytes : List ℕ) (l : Log)
    → Appends fs
    → InStep l
    → Follows l (hex_lines fuel fs k bytes l)
unfolding hex_lines
hex_lines-Follows zero fs k bytes l works h = Follows-refl l h
hex_lines-Follows (suc fuel) fs k bytes l works h =
    let line = hex_line (take 16 bytes) in
    let l₁ = (write_at_offset fs k line l).0 in
    let one = write_at_offset-Follows fs k line l works h in
    let rest = hex_lines-Follows fuel fs (suc k) (drop 16 bytes) l₁ works one.0 in
    if_elim (Follows l) (length bytes == 0) l _ (λ _. Follows-refl l h)
      (λ _.
        if_elim (Follows l) (write_at_offset fs k line l).1 _ l₁
          (λ _. Follows-trans l l₁ (hex_lines fuel fs (suc k) (drop 16 bytes) l₁) one rest)
          (λ _. one))

pub log_hex-Follows :
    (line dump : FileSystem) (prefix text bytes : List ℕ) (l : Log)
    → Appends line
    → Appends dump
    → InStep l
    → Follows l (log_hex line dump prefix text bytes l)
unfolding log_hex log_str
log_hex-Follows line dump prefix text bytes l line_works dump_works h =
    let l₀ = log_str line prefix text l in
    let l₁ = (open_log_file_for_append dump l₀).0 in
    let said = log_str-Follows line prefix text l line_works h in
    let opened = Follows-trans l l₀ l₁ said (open_log_file_for_append-Follows dump l₀ said.0) in
    if_elim (Follows l) l.enabled _ l
      (λ _.
        if_elim (Follows l) (open_log_file_for_append dump l₀).1 _ l₁
          (λ _.
            Follows-trans l l₁ (hex_lines (length bytes) dump 0 bytes l₁) opened
              (hex_lines-Follows (length bytes) dump 0 bytes l₁ dump_works opened.0))
          (λ _. opened))
      (λ _. Follows-refl l h)

initialize-file :
    (fs : FileSystem) (enabled : Bool) (file : Option (List ℕ)) (offset : ℕ)
    → (fs.opens && fs.sizes) ≡ true
    → InStep (log_of enabled file offset)
    → Follows (log_of enabled file offset) (initialize fs (log_of enabled file offset)).0
unfolding initialize
initialize-file fs enabled none offset works h = rw works (ground arith)
initialize-file fs enabled (some contents) offset works h =
    let l = log_of enabled (some contents) offset in
    if_elim {A = Log × Bool} (λ p. Follows l p.0) (not enabled) _ _ (λ _. Follows-refl l h)
      (λ _.
        if_elim {A = Log × Bool} (λ p. Follows l p.0) (not fs.tells) _ _ (λ _. Follows-refl l h)
          (λ _. rw works (refl, Extends-refl (some contents))))

pub set_logging-Follows :
    (fs : FileSystem) (enabled : ℕ) (l : Log)
    → (fs.opens && fs.sizes) ≡ true
    → InStep l
    → Follows l (set_logging fs enabled l).0
unfolding set_logging
set_logging-Follows fs enabled l works h =
    let switched = log_of (not (enabled == 0)) l.file l.offset in
    if_elim {A = Log × Bool} (λ p. Follows l p.0) (not (enabled == 0)) (initialize fs switched)
      (switched, true) (λ _. initialize-file fs (not (enabled == 0)) l.file l.offset works h)
      (λ _. (h, Extends-refl l.file))

-- What `Initialize` leaves behind when it succeeds at the start.
pub initialize-at_boot :
    (fs : FileSystem) (file : Option (List ℕ))
    → (initialize fs (at_boot file)).1 ≡ true
    → InStep (initialize fs (at_boot file)).0
unfolding initialize
initialize-at_boot fs none ok = ground arith
initialize-at_boot fs (some contents) ok = ground arith
