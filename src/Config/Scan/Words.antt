-- ===== src/Config/Scan/Words.antt =====
-- What the scanner of words finds, and that it reads back a word.
use switch_lan_play_nx.Prelude.{
  ℕ, zero, suc, ◌≤◌, ◌<◌, ◌≡◌, refl, ap, ◌∙◌, Bool, true, not, Option, none, some, List, [], ◌∷◌,
  ◌++◌, arith, ◌>>=◌, if_elim, All, length,
}
use switch_lan_play_nx.Config.Scan.{is_space, skip_space, take_word, nonempty_word, scan_word}

-- What holds of a result, if there is one.
abbrev pub IfSome : {A : Type 0} → (A → Type 0) → Option A → Type 0
IfSome P none = Unit {0}
IfSome P (some a) = P a

pub IfSome-bind :
    {A B : Type 0} (P : A → Type 0) (Q : B → Type 0) (o : Option A) (f : A → Option B)
    → IfSome P o
    → ((a : A) → P a → IfSome Q (f a))
    → IfSome Q (o >>= f)
IfSome-bind P Q none f h k = tt
IfSome-bind P Q (some a) f h k = k a h

abbrev pub no_space : ℕ → Bool
no_space c = not (is_space c)

-- One to `n` bytes without a space.
abbrev pub IsWord : ℕ → List ℕ → Type 0
IsWord n w = (0 < length w) × (length w ≤ n) × All no_space w

take_word-short :
    (n : ℕ) (s : List ℕ) → (length (take_word n s).0 ≤ n) × All no_space (take_word n s).0
unfolding take_word
take_word-short zero s = (omega arith, tt)
take_word-short (suc n) [] = (omega arith, tt)
take_word-short (suc n) (c ∷ s) =
    let (short, spaceless) = take_word-short n s in
    if_elim (λ (r : List ℕ × List ℕ). (length r.0 ≤ suc n) × All no_space r.0) (is_space c)
      ([], c ∷ s) _ (λ h. (omega arith, tt)) (λ h. (omega arith, (rw h, spaceless)))

nonempty_word-IfSome :
    (n : ℕ) (found : List ℕ × List ℕ)
    → length found.0 ≤ n
    → All no_space found.0
    → IfSome (λ (r : List ℕ × List ℕ). IsWord n r.0) (nonempty_word found)
nonempty_word-IfSome n ([], rest) short spaceless = tt
nonempty_word-IfSome n (c ∷ w, rest) short spaceless = (omega arith, short, spaceless)

pub scan_word-IfSome :
    (n : ℕ) (s : List ℕ) → IfSome (λ (found : List ℕ × List ℕ). IsWord n found.0) (scan_word n s)
scan_word-IfSome n s =
    nonempty_word-IfSome n (take_word n (skip_space s)) (take_word-short n (skip_space s)).0
      (take_word-short n (skip_space s)).1

-- A word that a space or the end follows is read back.
abbrev ends_word : List ℕ → Bool
ends_word [] = true
ends_word (c ∷ s) = is_space c

take_word-append :
    (n : ℕ) (w rest : List ℕ)
    → All no_space w
    → ends_word rest ≡ true
    → length w ≤ n
    → take_word n (w ++ rest) ≡ (w, rest)
unfolding take_word
take_word-append zero [] rest h e k = refl
take_word-append zero (c ∷ w) rest h e k = absurd (omega arith)
take_word-append (suc n) [] [] h e k = refl
take_word-append (suc n) [] (c ∷ rest) h e k = rw e
take_word-append (suc n) (c ∷ w) rest h e k =
    rw (take_word-append n w rest h.1 e (omega arith)) (ground arith)

skip_space-word :
    (w rest : List ℕ) → 0 < length w → All no_space w → skip_space (w ++ rest) ≡ w ++ rest
skip_space-word [] rest h k = absurd (omega arith)
skip_space-word (c ∷ w) rest h k = ground arith

pub scan_word-append :
    (n : ℕ) (w rest : List ℕ)
    → IsWord n w
    → ends_word rest ≡ true
    → scan_word n (w ++ rest) ≡ some (w, rest)
scan_word-append n (c ∷ w) rest (some_byte, short, spaceless) e =
    ap (λ s. nonempty_word (take_word n s)) (skip_space-word (c ∷ w) rest some_byte spaceless)
    ∙ ap nonempty_word (take_word-append n (c ∷ w) rest spaceless e short)
scan_word-append n [] rest h e = absurd (omega (arith, h.0))
