-- ===== src/Config/Scan/Numbers.antt =====
-- Numbers are read back from their decimal digits.
use switch_lan_play_nx.Prelude.{
  ℕ, zero, suc, ◌+◌, ◌-◌, ◌*◌, ◌/◌, ◌%◌, ◌^◌, ◌≤◌, ◌<◌, min, ◌≡◌, refl, sym, ap, subst, ◌∙◌, Bool,
  true, false, some, List, [], ◌∷◌, ◌++◌, append-nil, append_assoc, arith, ltb, if◌then◌else◌,
  if_elim, All, All-append, All-mono, length, length-append,
}
use switch_lan_play_nx.Config.Scan.{
  skip_space, is_digit, digits_value, take_sign, strtol, starts_with_digit, int_of, scan_int,
  digits, decimal,
}
use switch_lan_play_nx.Config.Scan.Words.{IsWord, no_space}

-- Powers of ten, by recursion.
abbrev ten_to : ℕ → ℕ
ten_to zero = 1
ten_to (suc f) = 10 * ten_to f

digits_value-last :
    (n : ℕ) (out : List ℕ) → digits_value (n / 10) ((b'0' + n % 10) ∷ out) ≡ digits_value n out
digits_value-last n out = ground arith

digits_value-digits :
    (fuel n : ℕ) (out : List ℕ)
    → n < ten_to (suc fuel)
    → digits_value 0 (digits (suc fuel) n out) ≡ digits_value n out
unfolding digits
digits_value-digits zero n out h = ground arith
digits_value-digits (suc fuel) n out h =
    if_elim (λ l. digits_value 0 l ≡ digits_value n out) (ltb n 10) ((b'0' + n % 10) ∷ out)
      (digits (suc fuel) (n / 10) ((b'0' + n % 10) ∷ out)) (λ small. ground arith)
      (λ large.
        digits_value-digits fuel (n / 10) ((b'0' + n % 10) ∷ out) (omega arith)
        ∙ digits_value-last n out)

-- A text is one to `k` digits before `out`.
abbrev Digits : ℕ → List ℕ → List ℕ → Type 0
Digits k out l =
    (ds : List ℕ) × (l ≡ ds ++ out) × (0 < length ds) × (length ds ≤ k) × All is_digit ds

last_digit : (n : ℕ) → is_digit (b'0' + n % 10) ≡ true
last_digit n = ground arith

one_digit : (k n : ℕ) (out : List ℕ) → Digits (suc k) out ((b'0' + n % 10) ∷ out)
one_digit k n out = ((b'0' + n % 10) ∷ [], refl, omega arith, omega arith, (last_digit n, tt))

one_more :
    (k d : ℕ) (out l : List ℕ) → is_digit d ≡ true → Digits k (d ∷ out) l → Digits (suc k) out l
one_more k d out l digit (ds, e, some_digit, few, all) = (
  ds ++ d ∷ [],
  e ∙ sym (append_assoc ds (d ∷ []) out),
  omega (arith, length-append ds (d ∷ [])),
  omega (arith, length-append ds (d ∷ [])),
  All-append is_digit ds (d ∷ []) all (digit, tt),
)

digits-Digits : (fuel n : ℕ) (out : List ℕ) → Digits (suc fuel) out (digits (suc fuel) n out)
unfolding digits
digits-Digits zero n out =
    if_elim (Digits 1 out) (ltb n 10) ((b'0' + n % 10) ∷ out) ((b'0' + n % 10) ∷ out)
      (λ _. one_digit 0 n out) (λ _. one_digit 0 n out)
digits-Digits (suc fuel) n out =
    if_elim (Digits (suc (suc fuel)) out) (ltb n 10) ((b'0' + n % 10) ∷ out)
      (digits (suc fuel) (n / 10) ((b'0' + n % 10) ∷ out)) (λ _. one_digit (suc fuel) n out)
      (λ _.
        one_more (suc fuel) (b'0' + n % 10) out _ (last_digit n)
          (digits-Digits fuel (n / 10) ((b'0' + n % 10) ∷ out)))

-- More fuel than digits changes nothing.
digits-fuel :
    (f k n : ℕ) (out : List ℕ)
    → n < ten_to (suc f)
    → n < ten_to (suc k)
    → digits (suc f) n out ≡ digits (suc k) n out
unfolding digits
digits-fuel zero zero n out h h' = refl
digits-fuel zero (suc k) n out h h' = ground arith
digits-fuel (suc f) zero n out h h' = ground arith
digits-fuel (suc f) (suc k) n out h h' =
    ap (λ l. if ltb n 10 then (b'0' + n % 10) ∷ out else l)
      (digits-fuel f k (n / 10) ((b'0' + n % 10) ∷ out) (omega arith) (omega arith))

digit-no_space : (c : ℕ) → is_digit c ≡ true → no_space c ≡ true
digit-no_space c h = ground arith

-- A port is one to five digits.
pub decimal-IsWord : (n : ℕ) → n < 100000 → IsWord 5 (decimal n) × All is_digit (decimal n)
decimal-IsWord n h =
    let same = digits-fuel 4 9 n [] (omega arith) (omega arith) in
    let (ds, e, some_digit, few, all) = digits-Digits 4 n [] in
    let here = sym same ∙ (e ∙ append-nil ds) in
    subst (λ l. IsWord 5 l × All is_digit l) (sym here)
      ((some_digit, few, All-mono is_digit no_space digit-no_space ds all), all)

digits-append :
    (fuel n : ℕ) (out rest : List ℕ) → digits fuel n out ++ rest ≡ digits fuel n (out ++ rest)
unfolding digits
digits-append zero n out rest = refl
digits-append (suc fuel) n out rest =
    if_elim (λ l. l ++ rest ≡ digits (suc fuel) n (out ++ rest)) (ltb n 10) ((b'0' + n % 10) ∷ out)
      (digits fuel (n / 10) ((b'0' + n % 10) ∷ out)) (λ h. rw h)
      (λ h. rw h (digits-append fuel (n / 10) ((b'0' + n % 10) ∷ out) rest))

-- Digits are read from the first one, with no sign.
number_start :
    (ds rest : List ℕ)
    → 0 < length ds
    → All is_digit ds
    → take_sign (skip_space (ds ++ rest)) ≡ (false, ds ++ rest)
number_start [] rest h all = absurd (omega arith)
number_start (d ∷ ds) rest h (digit, all) = ground arith

starts-digits :
    (ds rest : List ℕ) → 0 < length ds → All is_digit ds → starts_with_digit (ds ++ rest) ≡ true
starts-digits [] rest h all = absurd (omega arith)
starts-digits (d ∷ ds) rest h (digit, all) = digit

-- What is printed in decimal is read back, up to a byte that is no digit.
decimal-value :
    (n : ℕ) (rest : List ℕ)
    → n < 100000
    → starts_with_digit rest ≡ false
    → digits_value 0 (decimal n ++ rest) ≡ n
decimal-value n rest h stop =
    ap (digits_value 0) (digits-append 10 n [] rest)
    ∙ digits_value-digits 9 n rest (omega arith)
    ∙ digits_value-stop n rest stop
  where
    digits_value-stop : (m : ℕ) (s : List ℕ) → starts_with_digit s ≡ false → digits_value m s ≡ m
    digits_value-stop m [] stop = refl
    digits_value-stop m (c ∷ s) stop = rw stop

pub strtol-decimal : (n : ℕ) → n < 100000 → strtol (decimal n) ≡ (false, n)
strtol-decimal n h =
    let (word, all) = decimal-IsWord n h in
    let whole = append-nil (decimal n) in
    let start =
      subst (λ s. take_sign (skip_space s) ≡ (false, s)) whole
        (number_start (decimal n) [] word.0 all) in
    let value = ap (digits_value 0) (sym whole) ∙ decimal-value n [] h refl in
    ap (λ (r : Bool × List ℕ). (r.0, min (digits_value 0 r.1) (2 ^ 63 - 1))) start ∙ ground arith

pub scan_int-decimal : (n : ℕ) → n < 100000 → scan_int (decimal n ++ b'\n' ∷ []) ≡ some n
scan_int-decimal n h =
    let (word, all) = decimal-IsWord n h in
    let start = number_start (decimal n) (b'\n' ∷ []) word.0 all in
    let value = decimal-value n (b'\n' ∷ []) h refl in
    let digit = starts-digits (decimal n) (b'\n' ∷ []) word.0 all in ap int_of start ∙ ground arith
