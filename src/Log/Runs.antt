-- ===== src/Log/Runs.antt =====
-- The log over any calls, with the file deleted from outside in between.
use switch_lan_play_nx.Prelude.{ℕ, ◌≡◌, Bool, true, false, ◌&&◌, Option, none, List, [], ◌∷◌, arith}
use switch_lan_play_nx.Log.{FileSystem, Log, at_boot, initialize, set_logging, log_str, log_hex}
use switch_lan_play_nx.Log.Follow.{
  Appends, InStep, Extends, Extends-refl, Extends-trans, log_str-Follows, log_hex-Follows,
  set_logging-Follows, initialize-at_boot,
}

-- What happens to the log: a line, a dump, a switch, or the file is deleted from outside.
pub data Event : Type 0 where
  says : FileSystem → (prefix text : List ℕ) → Event
  dumps : (line dump : FileSystem) (prefix text bytes : List ℕ) → Event
  switches : FileSystem → ℕ → Event
  is_deleted : Event

abbrev pub happen : Event → Log → Log
happen (says fs prefix text) l = log_str fs prefix text l
happen (dumps line dump prefix text bytes) l = log_hex line dump prefix text bytes l
happen (switches fs enabled) l = (set_logging fs enabled l).0
happen is_deleted l = record l { file = none }

abbrev pub run : List Event → Log → Log
run [] l = l
run (e ∷ events) l = run events (happen e l)

-- The file system appends, and a switch opens the file and tells its size.
abbrev Works : List Event → Type 0
Works [] = Unit {0}
Works (says fs prefix text ∷ events) = Appends fs × Works events
Works (dumps line dump prefix text bytes ∷ events) = Appends line × Appends dump × Works events
Works (switches fs enabled ∷ events) = ((fs.opens && fs.sizes) ≡ true) × Works events
Works (is_deleted ∷ events) = Works events

abbrev pub is_kept : List Event → Bool
is_kept [] = true
is_kept (is_deleted ∷ events) = false
is_kept (e ∷ events) = is_kept events

run-InStep : (events : List Event) (l : Log) → Works events → InStep l → InStep (run events l)
run-InStep [] l works h = h
run-InStep (says fs prefix text ∷ events) l works h =
    run-InStep events (log_str fs prefix text l) works.1
      (log_str-Follows fs prefix text l works.0 h).0
run-InStep (dumps line dump prefix text bytes ∷ events) l works h =
    run-InStep events (log_hex line dump prefix text bytes l) works.2
      (log_hex-Follows line dump prefix text bytes l works.0 works.1 h).0
run-InStep (switches fs enabled ∷ events) l works h =
    run-InStep events (set_logging fs enabled l).0 works.1
      (set_logging-Follows fs enabled l works.0 h).0
run-InStep (is_deleted ∷ events) l works h = run-InStep events (record l { file = none }) works tt

run-Follows :
    (events : List Event) (l : Log)
    → Works events
    → InStep l
    → is_kept events ≡ true
    → Extends l.file (run events l).file
run-Follows [] l works h kept = Extends-refl l.file
run-Follows (says fs prefix text ∷ events) l works h kept =
    let (step, more) = log_str-Follows fs prefix text l works.0 h in
    let l₁ = log_str fs prefix text l in
    Extends-trans l.file l₁.file (run events l₁).file more (run-Follows events l₁ works.1 step kept)
run-Follows (dumps line dump prefix text bytes ∷ events) l works h kept =
    let (step, more) = log_hex-Follows line dump prefix text bytes l works.0 works.1 h in
    let l₁ = log_hex line dump prefix text bytes l in
    Extends-trans l.file l₁.file (run events l₁).file more (run-Follows events l₁ works.2 step kept)
run-Follows (switches fs enabled ∷ events) l works h kept =
    let (step, more) = set_logging-Follows fs enabled l works.0 h in
    let l₁ = (set_logging fs enabled l).0 in
    Extends-trans l.file l₁.file (run events l₁).file more (run-Follows events l₁ works.1 step kept)
run-Follows (is_deleted ∷ events) l works h kept = absurd (ground arith)

-- `Initialize` succeeds at the start, whatever the file holds. Then, whatever lines and dumps are
-- logged, with logging switched off and on and the file deleted from outside in between, and
-- whichever calls of the file system fail (but a write that succeeds at the end of the file
-- appends, and a switch finds the file open to it and its size): the next write is at the end of
-- the file, and unless it is deleted, all that the file held after `Initialize` is its beginning.
pub run-initialize-Follows :
    (fs : FileSystem) (file : Option (List ℕ)) (events : List Event)
    → (initialize fs (at_boot file)).1 ≡ true
    → Works events
    → let l = (initialize fs (at_boot file)).0 in
      InStep (run events l) × (is_kept events ≡ true → Extends l.file (run events l).file)
run-initialize-Follows fs file events ok works =
    let l = (initialize fs (at_boot file)).0 in
    let h = initialize-at_boot fs file ok in
    (run-InStep events l works h, run-Follows events l works h)
