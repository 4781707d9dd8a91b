-- ===== src/Bridge/DummySkip/Burst.antt =====
-- What one call of `ShouldMitm` does to the table of the sessions.
use switch_lan_play_nx.Prelude.{
  ℕ, zero, suc, ◌+◌, ◌^◌, ◌<◌, ◌≡◌, ◌≢◌, refl, ap, ◌∙◌, sym, Bool, true, false, ◌&&◌, ◌||◌, not,
  inl, inr, Option, none, some, [], ◌∷◌, set, get_elem?, ◌==◌, if◌then◌else◌, if_false, subst,
  ne→==, u32, arith,
}
use switch_lan_play_nx.Bridge.DummySkip.{
  DummySkipEntry, Table, MitmProcessInfo, ldn_mitm_program_id, is_free, find_entry, use_entry,
  with_entry, should_mitm,
}
use switch_lan_play_nx.Bridge.DummySkip.Sessions.{
  sessions, is_full, IsValid, opened, Found, find_entry-Found, sessions-set, set-IsValid,
  sessions-get_elem?,
}

abbrev is_known : Option ℕ → Bool
is_known none = false
is_known (some n) = true

skipped_at :
    (table : Table) (k : ℕ) (e : DummySkipEntry)
    → IsValid table
    → get_elem? table k ≡ some e
    → e.pid ≢ 0
    → (e.dummy_skipped ≡ true) × (e.live < 2 ^ 32)
skipped_at [] k e v g h = cc
skipped_at (x ∷ table) zero e v g h = ground arith
skipped_at (x ∷ table) (suc k) e v g h = skipped_at table k e v.1 g h

use_entry-own :
    (pid : ℕ) (e : DummySkipEntry)
    → pid ≢ 0
    → e.pid ≡ pid
    → e.dummy_skipped ≡ true
    → use_entry pid e ≡ (record e { live = u32 (e.live + 1) }, true)
unfolding use_entry
use_entry-own pid e h own skipped = ground arith

use_entry-free :
    (pid : ℕ) (e : DummySkipEntry)
    → is_free e ≡ true
    → use_entry pid e ≡ (record { pid = pid; live = 0; dummy_skipped = true }, false)
unfolding use_entry
use_entry-free pid e free = ground arith

-- What a call leaves behind and answers.
abbrev pub Burst : ℕ → Table → Table × Bool → Type 0
Burst pid table (table', answer) =
    IsValid table'
    × (answer ≡ is_known (sessions table pid))
    × ((q : ℕ)
        → q ≢ 0
        → sessions table' q ≡ (
            if pid == q && (is_known (sessions table pid) || not (is_full table))
            then opened (sessions table q)
            else sessions table q))

module _ (pid : ℕ) (named : pid ≢ 0) (table : Table) (valid : IsValid table) where
  abbrev after : ℕ → DummySkipEntry × Bool → Table × Bool
  after k (e', answer) = (set table k e', answer)

  Burst-own :
      (k : ℕ) (e : DummySkipEntry)
      → get_elem? table k ≡ some e
      → e.pid ≡ pid
      → Burst pid table (with_entry pid table (some (k, e)))
  Burst-own k e at own =
      subst (λ r. Burst pid table (after k r)) (sym (use_entry-own pid e named own skipped))
        (
          set-IsValid pid named e' own table k e valid (at, inl own) (ground arith) skipped,
          ap is_known (sym known),
          λ q hq.
              ground
                (arith, sessions-set pid named e' own q table k e hq valid (at, inl own), known),
        )
    where
      e' : DummySkipEntry
      e' = record e { live = u32 (e.live + 1) }

      skipped : e.dummy_skipped ≡ true
      skipped = (skipped_at table k e valid at (λ z. named (sym own ∙ z))).0

      known : sessions table pid ≡ some e.live
      known =
          subst (λ p. sessions table p ≡ some e.live) own
            (sessions-get_elem? table k e valid at (λ z. named (sym own ∙ z)))

  has_room :
      (t : Table) (k : ℕ) (e : DummySkipEntry)
      → get_elem? t k ≡ some e
      → is_free e ≡ true
      → is_full t ≡ false
  has_room [] k e at free = cc
  has_room (x ∷ t) zero e at free = ground arith
  has_room (x ∷ t) (suc k) e at free = ground (arith, has_room t k e at free)

  Burst-free :
      (k : ℕ) (e : DummySkipEntry)
      → get_elem? table k ≡ some e
      → is_free e ≡ true
      → sessions table pid ≡ none
      → Burst pid table (with_entry pid table (some (k, e)))
  Burst-free k e at free unknown =
      subst (λ r. Burst pid table (after k r)) (sym (use_entry-free pid e free))
        (
          set-IsValid pid named e' refl table k e valid (at, inr (free, unknown)) (ground arith)
              refl,
          ap is_known (sym unknown),
          λ q hq. ground (
            arith,
            sessions-set pid named e' refl q table k e hq valid (at, inr (free, unknown)),
            unknown,
            has_room table k e at free,
          ),
        )
    where
      e' : DummySkipEntry
      e' = record { pid = pid; live = 0; dummy_skipped = true }

  Burst-full : sessions table pid ≡ none → is_full table ≡ true → Burst pid table (table, false)
  Burst-full unknown full =
      (valid, ap is_known (sym unknown), λ q hq. ground (arith, unknown, full))

  at_index :
      (k : ℕ) (e : DummySkipEntry)
      → Burst pid table (with_entry pid table (some (k, e)))
      → Burst pid table (with_entry pid table (some (0 + k, e)))
  at_index k e =
      subst (λ i. Burst pid table (with_entry pid table (some (i, e)))) {x = k} {y = 0 + k}
        (omega arith)

  Burst-Found :
      Found pid table 0 none → Burst pid table (with_entry pid table (find_entry pid table 0 none))
  Burst-Found (inl (k, e, found, (at, inl own), why)) =
      subst (λ r. Burst pid table (with_entry pid table r)) (sym found)
        (at_index k e (Burst-own k e at own))
  Burst-Found (inl (k, e, found, (at, inr (free, unknown)), why)) =
      subst (λ r. Burst pid table (with_entry pid table r)) (sym found)
        (at_index k e (Burst-free k e at free unknown))
  Burst-Found (inr (found, unknown, inl some_entry)) = absurd (ground arith)
  Burst-Found (inr (found, unknown, inr full)) =
      subst (λ r. Burst pid table (with_entry pid table r)) (sym found) (Burst-full unknown full)

-- A session of an application (a program for which IsApplicationId holds and which is not
-- ldn_mitm) with a nonzero pid, on a valid table: ShouldMitm intercepts it exactly if the table
-- knows the pid; a known pid has one more live session after it, an unknown pid is entered with
-- no live session if there is room, no other pid's sessions change, and the table stays valid.
pub should_mitm-Burst :
    (is_application_id : ℕ → Bool) (table : Table) (info : MitmProcessInfo)
    → IsValid table
    → info.process_id ≢ 0
    → info.program_id ≢ ldn_mitm_program_id
    → is_application_id info.program_id ≡ true
    → Burst info.process_id table (should_mitm is_application_id table info)
unfolding should_mitm
should_mitm-Burst is_application_id table info valid named other app =
    subst (Burst info.process_id table) (sym step) (
      Burst-Found info.process_id named table valid
        (find_entry-Found info.process_id table 0 none named))
  where
    found : Table × Bool
    found = with_entry info.process_id table (find_entry info.process_id table 0 none)

    step : should_mitm is_application_id table info ≡ found
    step =
        if_false (info.program_id == ldn_mitm_program_id) (table, true) _
          (ne→== info.program_id ldn_mitm_program_id other)
        ∙ if_false (not (is_application_id info.program_id)) (table, false) found (ap not app)
