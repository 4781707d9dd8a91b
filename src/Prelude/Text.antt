-- ===== src/Prelude/Text.antt =====
-- Byte strings as text: the first place of a byte, as `strchr` and `memchr` find it.
use Prim.Native.Nat.{ℕ}
use mathlib.Core.Path.{◌≡◌, refl, ap}
use mathlib.Core.Bool.{Bool, true, false}
use mathlib.Core.List.{List, [], ◌∷◌, ◌++◌}
use mathlib.Core.Option.{Option, none, some}
use native.Mathlib.Omega.{arith}
use switch_lan_play_nx.Prelude.Tests.{◌==◌, if◌then◌else◌, ==_iff, if_elim}

-- The bytes before the first `b`, and those after it if there is one.
abbrev pub split_first : ℕ → List ℕ → List ℕ × Option (List ℕ)
split_first b [] = ([], none)
split_first b (c ∷ s) =
    let (before, rest) = split_first b s in if c == b then ([], some s) else (c ∷ before, rest)

-- A property of all elements, by a test.
abbrev pub All {ℓ} : {A : Type ℓ} → (A → Bool) → List A → Type 0
All p [] = Unit {0}
All p (x ∷ xs) = (p x ≡ true) × All p xs

pub All-append {ℓ} :
    {A : Type ℓ} (p : A → Bool) (xs ys : List A) → All p xs → All p ys → All p (xs ++ ys)
All-append p [] ys h k = k
All-append p (x ∷ xs) ys h k = (h.0, All-append p xs ys h.1 k)

pub All-mono :
    {A : Type 0} (p q : A → Bool)
    → ((a : A) → p a ≡ true → q a ≡ true)
    → (l : List A) → All p l
    → All q l
All-mono p q f [] h = tt
All-mono p q f (a ∷ l) h = (f a h.0, All-mono p q f l h.1)

abbrev pub Lacks : ℕ → List ℕ → Type 0
Lacks b [] = Unit {0}
Lacks b (c ∷ s) = ((c == b) ≡ false) × Lacks b s

pub split_first-last : (b : ℕ) (s : List ℕ) → Lacks b s → split_first b s ≡ (s, none)
split_first-last b [] h = refl
split_first-last b (c ∷ s) h = rw (split_first-last b s h.1) (rw h.0)

pub split_first-append :
    (b : ℕ) (s later : List ℕ) → Lacks b s → split_first b (s ++ b ∷ later) ≡ (s, some later)
split_first-append b [] later h = ground arith
split_first-append b (c ∷ s) later h = rw (split_first-append b s later h.1) (rw h.0)

-- A text is put together again from what `split_first` makes of it.
abbrev pub Rejoins : ℕ → List ℕ → List ℕ × Option (List ℕ) → Type 0
Rejoins b s (l, none) = Lacks b l × (s ≡ l)
Rejoins b s (l, some later) = Lacks b l × (s ≡ l ++ b ∷ later)

Rejoins-cons :
    (b c : ℕ) (s : List ℕ) (parts : List ℕ × Option (List ℕ))
    → (c == b) ≡ false
    → Rejoins b s parts
    → Rejoins b (c ∷ s) (c ∷ parts.0, parts.1)
Rejoins-cons b c s (l, none) h (lacks, e) = ((h, lacks), ap (◌∷◌ c) e)
Rejoins-cons b c s (l, some later) h (lacks, e) = ((h, lacks), ap (◌∷◌ c) e)

pub split_first-Rejoins : (b : ℕ) (s : List ℕ) → Rejoins b s (split_first b s)
split_first-Rejoins b [] = (tt, refl)
split_first-Rejoins b (c ∷ s) =
    if_elim (Rejoins b (c ∷ s)) (c == b) ([], some s) _
      (λ h. (tt, ap (λ d. d ∷ s) ((==_iff c b).0 h)))
      (λ h. Rejoins-cons b c s (split_first b s) h (split_first-Rejoins b s))
