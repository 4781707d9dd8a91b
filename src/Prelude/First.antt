-- ===== src/Prelude/First.antt =====
-- The first element of a list that passes a test, and writes to it.
use mathlib.Core.Path.{◌≡◌, refl, ap, sym, ◌∙◌}
use mathlib.Core.Bool.{Bool, true, false}
use mathlib.Core.List.{List, [], ◌∷◌}
use mathlib.Core.Option.{Option, none, some}
use mathlib.Core.Logic.{inl, inr}
use switch_lan_play_nx.Prelude.Tests.{if◌then◌else◌, Bool-cases, if_true, if_false}

module _ {ℓ} {A : Type ℓ} where
  abbrev pub first : (A → Bool) → List A → Option A
  first p [] = none
  first p (x ∷ xs) = if p x then some x else first p xs

  -- `f` on the first element that passes.
  abbrev pub update_first : (A → Bool) → (A → A) → List A → List A
  update_first p f [] = []
  update_first p f (x ∷ xs) = if p x then f x ∷ xs else x ∷ update_first p f xs

module _ {A : Type 0} (p : A → Bool) where
  first_take : (x : A) (xs : List A) → p x ≡ true → first p (x ∷ xs) ≡ some x
  first_take x xs h = if_true (p x) (some x) (first p xs) h

  first_miss : (x : A) (xs : List A) → p x ≡ false → first p (x ∷ xs) ≡ first p xs
  first_miss x xs h = if_false (p x) (some x) (first p xs) h

  update_hit : (f : A → A) (x : A) (xs : List A) → p x ≡ true → update_first p f (x ∷ xs) ≡ f x ∷ xs
  update_hit f x xs h = if_true (p x) (f x ∷ xs) (x ∷ update_first p f xs) h

  update_miss :
      (f : A → A) (x : A) (xs : List A)
      → p x ≡ false
      → update_first p f (x ∷ xs) ≡ x ∷ update_first p f xs
  update_miss f x xs h = if_false (p x) (f x ∷ xs) (x ∷ update_first p f xs) h

  first_hit : (x : A) (xs : List A) (a : A) → p x ≡ true → first p (x ∷ xs) ≡ some a → x ≡ a
  first_hit x xs a hit h = cc (first_take x xs hit, h)

  pub first-passes : (xs : List A) (a : A) → first p xs ≡ some a → p a ≡ true
  first-passes [] a h = cc
  first-passes (x ∷ xs) a h = elim (Bool-cases (p x)) [
    | inl hit ↦ cc (first_take x xs hit, h, hit)
    | inr miss ↦ first-passes xs a (sym (first_miss x xs miss) ∙ h)
  ]

  pub update_first-none : (f : A → A) (xs : List A) → first p xs ≡ none → update_first p f xs ≡ xs
  update_first-none f [] h = refl
  update_first-none f (x ∷ xs) h = elim (Bool-cases (p x)) [
    | inl hit ↦ absurd (cc (first_take x xs hit, h))
    | inr miss ↦
        update_miss f x xs miss
        ∙ ap (◌∷◌ x) (update_first-none f xs (sym (first_miss x xs miss) ∙ h))
  ]

  pub first-update_first :
      (f : A → A) (xs : List A) (a : A)
      → first p xs ≡ some a
      → p (f a) ≡ true
      → first p (update_first p f xs) ≡ some (f a)
  first-update_first f [] a h k = cc
  first-update_first f (x ∷ xs) a h k = elim (Bool-cases (p x)) [
    | inl hit ↦
        ap (first p) (update_hit f x xs hit)
        ∙ first_take (f x) xs (cc (k, ap f (first_hit x xs a hit h)))
        ∙ ap (λ z. some (f z)) (first_hit x xs a hit h)
    | inr miss ↦
        ap (first p) (update_miss f x xs miss)
        ∙ first_miss x (update_first p f xs) miss
        ∙ first-update_first f xs a (sym (first_miss x xs miss) ∙ h) k
  ]

module _ {A : Type 0} (p q : A → Bool) (f : A → A) where
  -- Another test's first element stays, where the write does not change whether it passes.
  pub first-update_first_ne :
      (xs : List A) (a c : A)
      → first p xs ≡ some a
      → q (f a) ≡ q a
      → first q xs ≡ some c
      → p c ≡ false
      → first q (update_first p f xs) ≡ some c
  first-update_first_ne [] a c ha same hc other = cc
  first-update_first_ne (x ∷ xs) a c ha same hc other = elim (Bool-cases (p x)) [
    | inl p_hit ↦ elim (Bool-cases (q x)) [
      | inl q_hit ↦ absurd (cc (first_hit q x xs c q_hit hc, p_hit, other))
      | inr q_miss ↦
          ap (first q) (update_hit p f x xs p_hit)
          ∙ first_miss q (f x) xs (cc (first_hit p x xs a p_hit ha, same, q_miss))
          ∙ sym (first_miss q x xs q_miss)
          ∙ hc
    ]
    | inr p_miss ↦ ap (first q) (update_miss p f x xs p_miss) ∙ elim (Bool-cases (q x)) [
      | inl q_hit ↦ first_take q x (update_first p f xs) q_hit ∙ sym (first_take q x xs q_hit) ∙ hc
      | inr q_miss ↦
          first_miss q x (update_first p f xs) q_miss
          ∙ first-update_first_ne xs a c (sym (first_miss p x xs p_miss) ∙ ha) same
              (sym (first_miss q x xs q_miss) ∙ hc) other
    ]
  ]

  -- Two tests that single out the same element write to the same place.
  pub update_first-agree :
      (xs : List A) (c : A)
      → first p xs ≡ some c
      → first q xs ≡ some c
      → update_first p f xs ≡ update_first q f xs
  update_first-agree [] c hp hq = refl
  update_first-agree (x ∷ xs) c hp hq = elim (Bool-cases (p x)) [
    | inl p_hit ↦
        update_hit p f x xs p_hit
        ∙ sym (update_hit q f x xs (cc (first_hit p x xs c p_hit hp, first-passes q (x ∷ xs) c hq)))
    | inr p_miss ↦ elim (Bool-cases (q x)) [
      | inl q_hit ↦ absurd (cc (first_hit q x xs c q_hit hq, first-passes p (x ∷ xs) c hp, p_miss))
      | inr q_miss ↦
          update_miss p f x xs p_miss
          ∙ ap (◌∷◌ x) (
              update_first-agree xs c (sym (first_miss p x xs p_miss) ∙ hp)
                (sym (first_miss q x xs q_miss) ∙ hq))
          ∙ sym (update_miss q f x xs q_miss)
    ]
  ]

module _ {A : Type 0} (p q : A → Bool) where
  -- A write that makes an element pass another test, which none passed.
  pub first-update_first_new :
      (f : A → A) (xs : List A) (a : A)
      → first p xs ≡ some a
      → first q xs ≡ none
      → q (f a) ≡ true
      → first q (update_first p f xs) ≡ some (f a)
  first-update_first_new f [] a hp hq new = cc
  first-update_first_new f (x ∷ xs) a hp hq new = elim (Bool-cases (q x)) [
    | inl q_hit ↦ absurd (cc (first_take q x xs q_hit, hq))
    | inr q_miss ↦ elim (Bool-cases (p x)) [
      | inl p_hit ↦
          ap (first q) (update_hit p f x xs p_hit)
          ∙ first_take q (f x) xs (cc (first_hit p x xs a p_hit hp, new))
          ∙ ap (λ z. some (f z)) (first_hit p x xs a p_hit hp)
      | inr p_miss ↦
          ap (first q) (update_miss p f x xs p_miss)
          ∙ first_miss q x (update_first p f xs) q_miss
          ∙ first-update_first_new f xs a (sym (first_miss p x xs p_miss) ∙ hp)
              (sym (first_miss q x xs q_miss) ∙ hq) new
    ]
  ]

  -- A narrower test that the wider one's first element passes.
  pub first-narrow :
      (xs : List A) (c : A)
      → ((x : A) → q x ≡ true → p x ≡ true)
      → first p xs ≡ some c
      → q c ≡ true
      → first q xs ≡ some c
  first-narrow [] c narrow h passes = cc
  first-narrow (x ∷ xs) c narrow h passes = elim (Bool-cases (p x)) [
    | inl p_hit ↦
        first_take q x xs (cc (first_hit p x xs c p_hit h, passes))
        ∙ ap some (first_hit p x xs c p_hit h)
    | inr p_miss ↦ elim (Bool-cases (q x)) [
      | inl q_hit ↦ absurd (cc (narrow x q_hit, p_miss))
      | inr q_miss ↦
          first_miss q x xs q_miss
          ∙ first-narrow xs c narrow (sym (first_miss p x xs p_miss) ∙ h) passes
    ]
  ]
