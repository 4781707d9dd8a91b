-- ===== src/Bridge/DummySkip/Tests.antt =====
-- Tests of the dummy-session table and concrete inputs for its theorems.
use switch_lan_play_nx.Prelude.{
  ℕ, ◌≡◌, refl, Bool, true, false, ◌&&◌, some, [], ◌∷◌, replicate, leb, arith,
}
use switch_lan_play_nx.Bridge.DummySkip.{
  Table, initial, free_entry, MitmProcessInfo, should_mitm, session_closed,
}
use switch_lan_play_nx.Bridge.DummySkip.Sessions.{sessions, IsValid, session_closed-sessions}
use switch_lan_play_nx.Bridge.DummySkip.Burst.{Burst, should_mitm-Burst}
use switch_lan_play_nx.Bridge.DummySkip.Runs.{
  open_session, close_session, run, run-dummy, run-IsValid,
}

-- `ams::ncm::IsApplicationId`, by its documented range.
abbrev is_application_id : ℕ → Bool
is_application_id id = leb 0x0100000000010000 id && leb id 0x01FFFFFFFFFFFFFF

abbrev game : MitmProcessInfo
game = record { process_id = 7; program_id = 0x0100152000022000 }

abbrev other_game : MitmProcessInfo
other_game = record { process_id = 9; program_id = 0x0100152000023000 }

-- The table after the dummy session of `game`.
abbrev one_dummy : Table
one_dummy = record { pid = 7; live = 0; dummy_skipped = true } ∷ replicate 7 free_entry

initial-IsValid : IsValid initial
initial-IsValid = ground arith

one_dummy-IsValid : IsValid one_dummy
one_dummy-IsValid = ground arith

first_session : should_mitm is_application_id initial game ≡ (one_dummy, false)
unfolding should_mitm switch_lan_play_nx.Bridge.DummySkip.find_entry
    switch_lan_play_nx.Bridge.DummySkip.use_entry
first_session = refl

should_mitm-Burst_example : Burst 7 one_dummy (should_mitm is_application_id one_dummy game)
should_mitm-Burst_example =
    should_mitm-Burst is_application_id one_dummy game one_dummy-IsValid (ground arith)
      (ground arith) refl

session_closed-sessions_example : sessions (session_closed 7 one_dummy) 7 ≡ some 0
session_closed-sessions_example =
    session_closed-sessions 7 7 one_dummy (ground arith) (ground arith) one_dummy-IsValid

run-IsValid_example :
    IsValid
      (run is_application_id initial (open_session game ∷ open_session game ∷ close_session 7 ∷ []))
run-IsValid_example =
    run-IsValid is_application_id initial
      (open_session game ∷ open_session game ∷ close_session 7 ∷ []) (ground arith) initial-IsValid

run-dummy_example :
    sessions (run is_application_id one_dummy (close_session 7 ∷ open_session other_game ∷ [])) 7
    ≡ some 0
run-dummy_example =
    run-dummy is_application_id 7 one_dummy (close_session 7 ∷ open_session other_game ∷ [])
      (ground arith) (ground arith) (ground arith) one_dummy-IsValid refl
