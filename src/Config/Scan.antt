-- ===== src/Config/Scan.antt =====
-- What source/cfg uses of the C library, on byte strings: `strlen` and `strchr` cut a text,
-- `sscanf` reads words and numbers, `strtol` a number, `snprintf` prints one.
pub mod Words
pub mod Numbers
use switch_lan_play_nx.Prelude.{
  ℕ, zero, suc, ◌+◌, ◌-◌, ◌*◌, ◌/◌, ◌%◌, ◌^◌, ◌≤◌, ◌<◌, compare, Ordering, bit_or, min, ◌≡◌, refl,
  sym, ap, ap₂, subst, ◌∙◌, ◌≡⟨◌⟩◌, ◌∎, ◌≢◌, ◌⊎◌, inl, inr, ◌↔◌, Bool, true, false, ◌&&◌, ◌||◌, not,
  Option, none, some, List, [], ◌∷◌, ◌++◌, map, append-nil, append_assoc, arith, first,
  update_first, first-passes, update_first-none, first-update_first, first-update_first_ne,
  update_first-agree, first-update_first_new, first-narrow, ltb, leb, ◌==◌, if◌then◌else◌, ltb→lt,
  lt→ltb, le→ltb, leb→le, le→leb, lt→leb, ==_iff, ==_refl, ne→==, Bool-cases, Option-cases, if_true,
  if_false, if_elim, split_first, All, Lacks, split_first-last, split_first-append, Rejoins,
  split_first-Rejoins, length, get_elem?, get_or, set, take, drop, replicate, length-append,
  length-set, length-take, length-drop, take-append-drop, take_all, take-append, drop-append,
  take-add, take-take, get_elem?-set_self, get_elem?-set_ne, get_elem?-lt, length-replicate, u8,
  u16, u32, add32, sub64, has_bit, be16, be32, bytes16, bytes32, be16-bytes, be32-bytes,
}

-- A text up to the first `b`; up to NUL it is what a `char *` stands for.
abbrev pub up_to : ℕ → List ℕ → List ℕ
up_to b s = (split_first b s).0

-- `isspace`
abbrev pub is_space : ℕ → Bool
is_space c = c == b' ' || (leb 9 c && leb c 13)

abbrev pub skip_space : List ℕ → List ℕ
skip_space [] = []
skip_space (c ∷ s) = if is_space c then skip_space s else c ∷ s

-- At most `n` bytes that are no spaces, and what follows.
unfoldable pub take_word : ℕ → List ℕ → List ℕ × List ℕ
take_word zero s = ([], s)
take_word (suc n) [] = ([], [])
take_word (suc n) (c ∷ s) =
    let (word, rest) = take_word n s in if is_space c then ([], c ∷ s) else (c ∷ word, rest)

abbrev pub nonempty_word : List ℕ × List ℕ → Option (List ℕ × List ℕ)
nonempty_word ([], rest) = none
nonempty_word (c ∷ word, rest) = some (c ∷ word, rest)

-- `%<n>s`
abbrev pub scan_word : ℕ → List ℕ → Option (List ℕ × List ℕ)
scan_word n s = nonempty_word (take_word n (skip_space s))

abbrev pub is_digit : ℕ → Bool
is_digit c = leb b'0' c && leb c b'9'

-- The number that the leading digits spell behind `n`.
abbrev pub digits_value : ℕ → List ℕ → ℕ
digits_value n [] = n
digits_value n (c ∷ s) = if is_digit c then digits_value (n * 10 + (c - b'0')) s else n

-- An optional sign; true for a minus.
abbrev pub take_sign : List ℕ → Bool × List ℕ
take_sign [] = (false, [])
take_sign (c ∷ s) =
    if c == b'-' then (true, s) else if c == b'+' then (false, s) else (false, c ∷ s)

-- `strtol(s, NULL, 10)`: whether it is negated, and the magnitude, which stops at LONG_MAX.
abbrev pub strtol : List ℕ → Bool × ℕ
strtol s =
    let (negated, digits) = take_sign (skip_space s) in
    (negated, min (digits_value 0 digits) (2 ^ 63 - 1))

abbrev pub starts_with_digit : List ℕ → Bool
starts_with_digit [] = false
starts_with_digit (c ∷ s) = is_digit c

-- `%d`, as the pattern of an `int`.
abbrev pub int_of : Bool × List ℕ → Option ℕ
int_of (negated, digits) =
    let magnitude = u32 (digits_value 0 digits) in
    if not (starts_with_digit digits)
    then none
    else some (if negated then u32 (2 ^ 32 - magnitude) else magnitude)

abbrev pub scan_int : List ℕ → Option ℕ
scan_int s = int_of (take_sign (skip_space s))

-- The decimal digits of a number of at most `fuel` of them.
unfoldable pub digits : ℕ → ℕ → List ℕ → List ℕ
digits zero n out = out
digits (suc fuel) n out =
    let more = digits fuel (n / 10) ((b'0' + n % 10) ∷ out) in
    if ltb n 10 then (b'0' + n % 10) ∷ out else more

-- `%d` of a number below 2^32, which has ten digits at most.
abbrev pub decimal : ℕ → List ℕ
decimal n = digits 10 n []
