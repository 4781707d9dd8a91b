-- ===== src/Log/Dump.antt =====
-- What LogHexImpl writes can be read back.
use switch_lan_play_nx.Prelude.{
  ℕ, zero, suc, ◌+◌, ◌-◌, ◌*◌, ◌/◌, ◌%◌, ◌≤◌, ◌<◌, ◌≡◌, refl, sym, ap, ap₂, ◌∙◌, Bool, true, false,
  Option, none, some, List, [], ◌∷◌, ◌++◌, append-nil, append_assoc, arith, first, ltb, ◌==◌,
  if◌then◌else◌, ltb→lt, All, length, take, drop, length-append, length-drop, take-append-drop,
}
use switch_lan_play_nx.Log.{
  FileSystem, Log, open_log_file_for_append, write_at_offset, write_line, log_str, hex_digit,
  hex_bytes, hex_line, hex_lines, log_hex,
}

abbrev digit_value : ℕ → ℕ
digit_value c = if ltb c b'a' then c - b'0' else c - b'a' + 10

-- The bytes that pairs of digits spell, after a first digit if there is one; line ends are skipped.
abbrev pub read_hex : Option ℕ → List ℕ → List ℕ
read_hex first [] = []
read_hex none (c ∷ s) =
    let second = read_hex (some c) s in if c == b'\n' then read_hex none s else second
read_hex (some a) (c ∷ s) = (digit_value a * 16 + digit_value c) ∷ read_hex none s

-- All goes well: the file is found and opened, and a write at its end appends.
abbrev pub GoesWell : FileSystem → Type 0
GoesWell fs =
    (fs.tells ≡ true)
    × (fs.opens ≡ true)
    × ((k : ℕ) (contents bytes : List ℕ)
        → fs.write_file k contents (length contents) bytes ≡ some (contents ++ bytes))

abbrev is_byte : ℕ → Bool
is_byte b = ltb b 256

digit_value-hex_digit : (n : ℕ) → n < 16 → digit_value (hex_digit n) ≡ n
digit_value-hex_digit n h = ground arith

hex_digit-no_line_end : (n : ℕ) → n < 16 → (hex_digit n == b'\n') ≡ false
hex_digit-no_line_end n h = ground arith

read_hex-hex_bytes :
    (bytes rest : List ℕ)
    → All is_byte bytes
    → read_hex none (hex_bytes bytes rest) ≡ bytes ++ read_hex none rest
read_hex-hex_bytes [] rest h = refl
read_hex-hex_bytes (b ∷ bytes) rest (small, h) =
    let b<256 = ltb→lt b 256 small in
    let whole : (b / 16) * 16 + b % 16 ≡ b = omega arith in
    let high = digit_value-hex_digit (b / 16) (omega arith) in
    let low = digit_value-hex_digit (b % 16) (omega arith) in
    rw (hex_digit-no_line_end (b / 16) (omega arith))
      (rw high (rw low (ap₂ (λ c s. c ∷ s) whole (read_hex-hex_bytes bytes rest h))))

hex_bytes-append :
    (bytes rest later : List ℕ) → hex_bytes bytes rest ++ later ≡ hex_bytes bytes (rest ++ later)
hex_bytes-append [] rest later = refl
hex_bytes-append (b ∷ bytes) rest later =
    ap (λ s. hex_digit (b / 16) ∷ hex_digit (b % 16) ∷ s) (hex_bytes-append bytes rest later)

-- The lines of a dump.
abbrev dump_of : ℕ → List ℕ → List ℕ
dump_of zero bytes = []
dump_of (suc fuel) bytes =
    let rest = dump_of fuel (drop 16 bytes) in
    if length bytes == 0 then [] else hex_line (take 16 bytes) ++ rest

read_hex-hex_line :
    (bytes later : List ℕ)
    → All is_byte bytes
    → read_hex none (hex_line bytes ++ later) ≡ bytes ++ read_hex none later
read_hex-hex_line bytes later h =
    ap (read_hex none) (hex_bytes-append bytes (b'\n' ∷ []) later)
    ∙ read_hex-hex_bytes bytes (b'\n' ∷ later) h

All-take : (n : ℕ) (bytes : List ℕ) → All is_byte bytes → All is_byte (take n bytes)
All-take zero bytes h = tt
All-take (suc n) [] h = tt
All-take (suc n) (b ∷ bytes) h = (h.0, All-take n bytes h.1)

All-drop : (n : ℕ) (bytes : List ℕ) → All is_byte bytes → All is_byte (drop n bytes)
All-drop zero bytes h = h
All-drop (suc n) [] h = tt
All-drop (suc n) (b ∷ bytes) h = All-drop n bytes h.1

has_some : (b : ℕ) (bytes : List ℕ) → (length (b ∷ bytes) == 0) ≡ false
has_some b bytes = ground arith

read_hex-dump_of :
    (fuel : ℕ) (bytes : List ℕ)
    → length bytes ≤ fuel
    → All is_byte bytes
    → read_hex none (dump_of fuel bytes) ≡ bytes
read_hex-dump_of zero [] h small = refl
read_hex-dump_of zero (b ∷ bytes) h small = absurd (omega arith)
read_hex-dump_of (suc fuel) [] h small = refl
read_hex-dump_of (suc fuel) (b ∷ bytes) h small =
    let all = b ∷ bytes in
    let later = dump_of fuel (drop 16 all) in
    let shorter : length (drop 16 all) ≤ fuel = omega (arith, length-drop 16 all) in
    let rest = read_hex-dump_of fuel (drop 16 all) shorter (All-drop 16 all small) in
    rw (has_some b bytes) (
      read_hex-hex_line (take 16 all) later (All-take 16 all small)
      ∙ ap (λ s. take 16 all ++ s) rest
      ∙ take-append-drop 16 all)

abbrev log_of : Bool → Option (List ℕ) → ℕ → Log
log_of enabled file offset = record { enabled = enabled; file = file; offset = offset }

write_at_offset-well :
    (fs : FileSystem) (k : ℕ) (bytes contents : List ℕ)
    → GoesWell fs
    → write_at_offset fs k bytes (log_of true (some contents) (length contents))
      ≡ (log_of true (some (contents ++ bytes)) (length (contents ++ bytes)), true)
unfolding write_at_offset
write_at_offset-well fs k bytes contents (_, _, appends) =
    rw (appends k contents bytes) (rw (length-append contents bytes) refl)

hex_lines-dump_of :
    (fuel : ℕ) (fs : FileSystem) (k : ℕ) (bytes contents : List ℕ)
    → GoesWell fs
    → (hex_lines fuel fs k bytes (log_of true (some contents) (length contents))).file
      ≡ some (contents ++ dump_of fuel bytes)
unfolding hex_lines
hex_lines-dump_of zero fs k bytes contents well = ap some (sym (append-nil contents))
hex_lines-dump_of (suc fuel) fs k [] contents well = ap some (sym (append-nil contents))
hex_lines-dump_of (suc fuel) fs k (b ∷ bytes) contents well =
    let line = hex_line (take 16 (b ∷ bytes)) in
    let rest = hex_lines-dump_of fuel fs (suc k) (drop 16 (b ∷ bytes)) (contents ++ line) well in
    rw (has_some b bytes) (
      rw (write_at_offset-well fs k line contents well)
        (rest ∙ ap some (append_assoc contents line (dump_of fuel (drop 16 (b ∷ bytes))))))

open_log_file_for_append-well :
    (fs : FileSystem) (contents : List ℕ)
    → GoesWell fs
    → let l = log_of true (some contents) (length contents) in
      open_log_file_for_append fs l ≡ (l, true)
unfolding open_log_file_for_append
open_log_file_for_append-well fs contents (tells, opens, _) = rw tells (rw opens refl)

log_str-well :
    (fs : FileSystem) (prefix text contents : List ℕ)
    → GoesWell fs
    → let after = (contents ++ prefix) ++ text in
      log_str fs prefix text (log_of true (some contents) (length contents))
      ≡ log_of true (some after) (length after)
unfolding log_str write_line
log_str-well fs prefix text contents well = rw (open_log_file_for_append-well fs contents well) (
    rw (write_at_offset-well fs 0 prefix contents well)
      (ap (λ p. p.0) (write_at_offset-well fs 1 text (contents ++ prefix) well)))

-- With logging on, a log file that holds `contents`, the next write at its end and file systems on
-- which all goes well: LogHexImpl leaves in the file what it held, then the prefix and the text of
-- its first line, then lines from which the bytes are read back.
pub read_hex-log_hex :
    (line dump : FileSystem) (prefix text bytes contents : List ℕ)
    → GoesWell line
    → GoesWell dump
    → All (λ b. ltb b 256) bytes
    → let l : Log = record { enabled = true; file = some contents; offset = length contents } in
      (lines : List ℕ) × ((log_hex line dump prefix text bytes l).file
        ≡ some (((contents ++ prefix) ++ text) ++ lines))
      × (read_hex none lines ≡ bytes)
unfolding log_hex
read_hex-log_hex line dump prefix text bytes contents line_well dump_well small =
    let after = (contents ++ prefix) ++ text in
    (
      dump_of (length bytes) bytes,
      rw (log_str-well line prefix text contents line_well) (
          rw (open_log_file_for_append-well dump after dump_well)
            (hex_lines-dump_of (length bytes) dump 0 bytes after dump_well)),
      read_hex-dump_of (length bytes) bytes (omega arith) small,
    )
