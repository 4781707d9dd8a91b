-- ===== src/Bridge/DummySkip/Runs.antt =====
-- The table over whole runs: sessions that are opened and intercepted sessions that close.
use switch_lan_play_nx.Prelude.{
  ℕ, ◌≡◌, sym, subst, ◌≢◌, ◌⊎◌, inl, inr, Bool, true, false, some, List, [], ◌∷◌, arith,
}
use switch_lan_play_nx.Bridge.DummySkip.{
  Table, MitmProcessInfo, ldn_mitm_program_id, should_mitm, session_closed,
}
use switch_lan_play_nx.Bridge.DummySkip.Sessions.{
  sessions, IsValid, session_closed-sessions, session_closed-IsValid,
}
use switch_lan_play_nx.Bridge.DummySkip.Burst.{should_mitm-Burst}

pub data Event : Type 0 where
  open_session : MitmProcessInfo → Event
  close_session : ℕ → Event

abbrev pid_of : Event → ℕ
pid_of (open_session info) = info.process_id
pid_of (close_session pid) = pid

unfoldable pub happen : (ℕ → Bool) → Table → Event → Table
happen is_application_id table (open_session info) = (should_mitm is_application_id table info).0
happen is_application_id table (close_session pid) = session_closed pid table

unfoldable pub run : (ℕ → Bool) → Table → List Event → Table
run is_application_id table [] = table
run is_application_id table (event ∷ events) =
    run is_application_id (happen is_application_id table event) events

abbrev AllNamed : List Event → Type 0
AllNamed [] = Unit {0}
AllNamed (event ∷ events) = (pid_of event ≢ 0) × AllNamed events

-- No event opens a session of `q`.
abbrev NeverOpens : ℕ → List Event → Type 0
NeverOpens q [] = Unit {0}
NeverOpens q (open_session info ∷ events) = (info.process_id ≢ q) × NeverOpens q events
NeverOpens q (close_session pid ∷ events) = NeverOpens q events

module _ (is_application_id : ℕ → Bool) where
  ignored :
      (table : Table) (info : MitmProcessInfo)
      → ((info.program_id ≡ ldn_mitm_program_id) ⊎ (is_application_id info.program_id ≡ false))
      → (should_mitm is_application_id table info).0 ≡ table
  unfolding should_mitm
  ignored table info why = ground arith

  -- The two kinds of programs that `ShouldMitm` tells apart.
  kinds :
      (program : ℕ)
      → ((program ≡ ldn_mitm_program_id) ⊎ (is_application_id program ≡ false))
        ⊎ ((program ≢ ldn_mitm_program_id) × (is_application_id program ≡ true))
  kinds program = ground arith

  happen-IsValid :
      (table : Table) (event : Event)
      → pid_of event ≢ 0
      → IsValid table
      → IsValid (happen is_application_id table event)
  unfolding happen
  happen-IsValid table (close_session pid) named valid =
      session_closed-IsValid pid table named valid
  happen-IsValid table (open_session info) named valid = elim (kinds info.program_id) [
    | inl ignore ↦ subst IsValid (sym (ignored table info ignore)) valid
    | inr (other, app) ↦ (should_mitm-Burst is_application_id table info valid named other app).0
  ]

  -- A pid that has its dummy session only keeps its entry when another session opens or any closes.
  happen-dummy :
      (q : ℕ) (table : Table) (event : Event)
      → q ≢ 0
      → pid_of event ≢ 0
      → NeverOpens q (event ∷ [])
      → IsValid table
      → sessions table q ≡ some 0
      → sessions (happen is_application_id table event) q ≡ some 0
  unfolding happen
  happen-dummy q table (close_session pid) hq named never valid dummy =
      ground (arith, session_closed-sessions pid q table named hq valid, dummy)
  happen-dummy q table (open_session info) hq named never valid dummy =
      elim (kinds info.program_id) [
        | inl ignore ↦ subst (λ t. sessions t q ≡ some 0) (sym (ignored table info ignore)) dummy
        | inr (other, app) ↦ ground (
          arith,
          (should_mitm-Burst is_application_id table info valid named other app).2 q hq,
          dummy,
        )
      ]

  -- Any sequence of openings of sessions by nonzero pids and of closings keeps a table valid.
  pub run-IsValid :
      (table : Table) (events : List Event)
      → AllNamed events
      → IsValid table
      → IsValid (run is_application_id table events)
  unfolding run
  run-IsValid table [] named valid = valid
  run-IsValid table (event ∷ events) named valid =
      run-IsValid (happen is_application_id table event) events named.1
        (happen-IsValid table event named.0 valid)

  first :
      (q : ℕ) (event : Event) (events : List Event)
      → NeverOpens q (event ∷ events)
      → NeverOpens q (event ∷ [])
  first q (open_session info) events never = (never.0, tt)
  first q (close_session pid) events never = tt

  later :
      (q : ℕ) (event : Event) (events : List Event)
      → NeverOpens q (event ∷ events)
      → NeverOpens q events
  later q (open_session info) events never = never.1
  later q (close_session pid) events never = never

  -- A nonzero pid that a valid table knows with no live session (the state that its dummy session
  -- leaves) is still known with no live session after any sequence of openings by other nonzero
  -- pids and of closings: the entry is never given back.
  pub run-dummy :
      (q : ℕ) (table : Table) (events : List Event)
      → q ≢ 0
      → AllNamed events
      → NeverOpens q events
      → IsValid table
      → sessions table q ≡ some 0
      → sessions (run is_application_id table events) q ≡ some 0
  unfolding run
  run-dummy q table [] hq named never valid dummy = dummy
  run-dummy q table (event ∷ events) hq named never valid dummy =
      run-dummy q (happen is_application_id table event) events hq named.1
        (later q event events never) (happen-IsValid table event named.0 valid)
        (happen-dummy q table event hq named.0 (first q event events never) valid dummy)
