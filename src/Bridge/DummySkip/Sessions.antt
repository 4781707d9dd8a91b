-- ===== src/Bridge/DummySkip/Sessions.antt =====
-- The table as a map from process ids to the numbers of their live sessions.
use switch_lan_play_nx.Prelude.{
  ℕ, zero, suc, ◌+◌, ◌-◌, ◌^◌, ◌<◌, ◌≡◌, ◌≢◌, refl, ap, ◌∙◌, sym, Bool, true, false, ◌&&◌, not, ◌⊎◌,
  inl, inr, Option, none, some, Bool-cases, if_true, if_false, [], ◌∷◌, set, get_elem?, ◌==◌,
  if◌then◌else◌, u32, arith,
}
use switch_lan_play_nx.Bridge.DummySkip.{
  DummySkipEntry, Table, is_free, is_null, find_entry, session_closed,
}

-- The live sessions of a pid, if the table knows it.
abbrev pub sessions : Table → ℕ → Option ℕ
sessions [] q = none
sessions (e ∷ table) q = if e.pid == q then some e.live else sessions table q

-- No room for another pid.
abbrev pub is_full : Table → Bool
is_full [] = true
is_full (e ∷ table) = not (is_free e) && is_full table

-- An entry is free, or belongs to a pid whose dummy was skipped and that stands in no later entry.
abbrev pub IsValid : Table → Type 0
IsValid [] = Unit {0}
IsValid (e ∷ table) =
    (((e.pid ≡ 0) × (e.live ≡ 0) × (e.dummy_skipped ≡ false))
      ⊎ ((e.pid ≢ 0)
          × (e.live < 2 ^ 32)
          × (e.dummy_skipped ≡ true)
          × (sessions table e.pid ≡ none)))
    × IsValid table

-- The map's own operations.
abbrev pub opened : Option ℕ → Option ℕ
opened none = some 0
opened (some n) = some (u32 (n + 1))

abbrev pub closed : Option ℕ → Option ℕ
closed none = none
closed (some n) = if n == 0 then some 0 else if n == 1 then none else some (n - 1)

-- When an intercepted session of a nonzero pid closes, on a valid table: of that pid one live
-- session less is left, the pid is forgotten with its last one and stays as it is with none, and
-- no other nonzero pid's sessions change.
pub session_closed-sessions :
    (pid q : ℕ) (table : Table)
    → pid ≢ 0
    → q ≢ 0
    → IsValid table
    → sessions (session_closed pid table) q
      ≡ (if pid == q then closed (sessions table q) else sessions table q)
unfolding session_closed
session_closed-sessions pid q [] hp hq v = ground arith
session_closed-sessions pid q (e ∷ table) hp hq v =
    ground (arith, session_closed-sessions pid q table hp hq v.1)

pub session_closed-IsValid :
    (pid : ℕ) (table : Table) → pid ≢ 0 → IsValid table → IsValid (session_closed pid table)
unfolding session_closed
session_closed-IsValid pid [] h v = tt
session_closed-IsValid pid (e ∷ table) h v =
    ground
      (arith, session_closed-sessions pid e.pid table h, session_closed-IsValid pid table h v.1)

pub sessions-get_elem? :
    (table : Table) (k : ℕ) (e : DummySkipEntry)
    → IsValid table
    → get_elem? table k ≡ some e
    → e.pid ≢ 0
    → sessions table e.pid ≡ some e.live
sessions-get_elem? [] k e v g h = cc
sessions-get_elem? (x ∷ table) zero e v g h = ground arith
sessions-get_elem? (x ∷ table) (suc k) e v g h =
    ground (arith, sessions-get_elem? table k e v.1 g h)

-- The entry that a session of `pid` may use: the pid's own, or a free one if it has none.
abbrev Usable : ℕ → Table → ℕ → DummySkipEntry → Type 0
Usable pid table k e =
    (get_elem? table k ≡ some e)
    × ((e.pid ≡ pid) ⊎ ((is_free e ≡ true) × (sessions table pid ≡ none)))

module _ (pid : ℕ) (named : pid ≢ 0) (e' : DummySkipEntry) (claimed : e'.pid ≡ pid) where
  pub sessions-set :
      (q : ℕ) (table : Table) (k : ℕ) (e : DummySkipEntry)
      → q ≢ 0
      → IsValid table
      → Usable pid table k e
      → sessions (set table k e') q ≡ (if pid == q then some e'.live else sessions table q)
  sessions-set q [] k e hq v u = cc (u.0)
  sessions-set q (x ∷ table) zero e hq v u = ground arith
  sessions-set q (x ∷ table) (suc k) e hq v u =
      ground (arith, sessions-set q table k e hq v.1, sessions-get_elem? table k e v.1 u.0)

  pub set-IsValid :
      (table : Table) (k : ℕ) (e : DummySkipEntry)
      → IsValid table
      → Usable pid table k e
      → e'.live < 2 ^ 32
      → e'.dummy_skipped ≡ true
      → IsValid (set table k e')
  set-IsValid [] k e v u l d = tt
  set-IsValid (x ∷ table) zero e v u l d =
      (inr (λ e0. named (sym claimed ∙ e0), l, d, ground arith), v.1)
  set-IsValid (x ∷ table) (suc k) e v u l d = ground (
    arith,
    sessions-set x.pid table k e,
    sessions-get_elem? table k e v.1 u.0,
    set-IsValid table k e v.1,
  )

-- What the loop comes to, started at index `i` with the entry that it has so far.
abbrev pub Found : ℕ → Table → ℕ → Option (ℕ × DummySkipEntry) → Type 0
Found pid table i entry =
    ((k : ℕ) × (e : DummySkipEntry) × (find_entry pid table i entry ≡ some (i + k, e))
      × Usable pid table k e
      × ((entry ≡ none) ⊎ (e.pid ≡ pid)))
    ⊎ ((find_entry pid table i entry ≡ entry)
        × (sessions table pid ≡ none)
        × ((is_null entry ≡ false) ⊎ (is_full table ≡ true)))

-- The entry that the loop goes on with after a foreign entry.
abbrev kept : ℕ → DummySkipEntry → Option (ℕ × DummySkipEntry) → Option (ℕ × DummySkipEntry)
kept i e entry = if is_free e && is_null entry then some (i, e) else entry

kept-free : (i : ℕ) (e : DummySkipEntry) → is_free e ≡ true → kept i e none ≡ some (i, e)
kept-free i e h = if_true (is_free e && true) (some (i, e)) none (ground arith)

kept-taken : (i : ℕ) (e : DummySkipEntry) → is_free e ≡ false → kept i e none ≡ none
kept-taken i e h = if_false (is_free e && true) (some (i, e)) none (ground arith)

kept-some : (i : ℕ) (e : DummySkipEntry) (a : ℕ × DummySkipEntry) → kept i e (some a) ≡ some a
kept-some i e a = if_false (is_free e && false) (some (i, e)) (some a) (and_false (is_free e))
  where
    and_false : (b : Bool) → (b && false) ≡ false
    and_false true = refl
    and_false false = refl

module _ (pid : ℕ) (e : DummySkipEntry) (table : Table) (i : ℕ)
    (other : (e.pid == pid) ≡ false) where
  find_entry-other :
      (entry : Option (ℕ × DummySkipEntry))
      → find_entry pid (e ∷ table) i entry ≡ find_entry pid table (i + 1) (kept i e entry)
  unfolding find_entry
  find_entry-other entry = if_false (e.pid == pid) (some (i, e)) _ other

  sessions-other : sessions (e ∷ table) pid ≡ sessions table pid
  sessions-other = if_false (e.pid == pid) (some e.live) (sessions table pid) other

  Usable-suc :
      (k : ℕ) (x : DummySkipEntry) → Usable pid table k x → Usable pid (e ∷ table) (suc k) x
  Usable-suc k x (at, inl own) = (at, inl own)
  Usable-suc k x (at, inr (free, unknown)) = (at, inr (free, sessions-other ∙ unknown))

  Found-suc :
      (entry : Option (ℕ × DummySkipEntry))
      → Found pid table (i + 1) (kept i e entry)
      → Found pid (e ∷ table) i entry
  Found-suc none (inl (k, x, found, usable, why)) = inl (
    suc k,
    x,
    find_entry-other none
        ∙ found
        ∙ ap (λ n. some (n, x)) {x = i + 1 + k} {y = i + suc k} (omega arith),
    Usable-suc k x usable,
    inl refl,
  )
  Found-suc (some a) (inl (k, x, found, usable, why)) = inl (
    suc k,
    x,
    find_entry-other (some a)
        ∙ found
        ∙ ap (λ n. some (n, x)) {x = i + 1 + k} {y = i + suc k} (omega arith),
    Usable-suc k x usable,
    ground (arith, kept-some i e a),
  )
  Found-suc none (inr (found, unknown, why)) = elim (Bool-cases (is_free e)) [
    | inl free ↦ inl (
      0,
      e,
      find_entry-other none
          ∙ found
          ∙ kept-free i e free
          ∙ ap (λ n. some (n, e)) {x = i} {y = i + 0} (omega arith),
      (refl, inr (free, sessions-other ∙ unknown)),
      inl refl,
    )
    | inr taken ↦ inr (
      find_entry-other none ∙ found ∙ kept-taken i e taken,
      sessions-other ∙ unknown,
      ground (arith, kept-taken i e taken),
    )
  ]
  Found-suc (some a) (inr (found, unknown, why)) =
      inr (find_entry-other (some a) ∙ found ∙ kept-some i e a, sessions-other ∙ unknown, inl refl)

pub find_entry-Found :
    (pid : ℕ) (table : Table) (i : ℕ) (entry : Option (ℕ × DummySkipEntry))
    → pid ≢ 0
    → Found pid table i entry
unfolding find_entry
find_entry-Found pid [] i entry h = inr (refl, refl, inr refl)
find_entry-Found pid (e ∷ table) i entry h = elim (Bool-cases (e.pid == pid)) [
  | inl own ↦ inl (0, e, ground arith, (refl, ground arith), ground arith)
  | inr other ↦
      Found-suc pid e table i other entry (find_entry-Found pid table (i + 1) (kept i e entry) h)
]
