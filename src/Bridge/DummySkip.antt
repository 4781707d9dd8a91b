-- ===== src/Bridge/DummySkip.antt =====
-- `ShouldMitm` and `~BsdBridgeService` of source/bsd/bsd_bridge_service.cpp with their table
-- `g_dummy_skip`. `ams::ncm::IsApplicationId` is an argument.
pub mod Sessions
pub mod Burst
pub mod Runs
mod Tests
use switch_lan_play_nx.Prelude.{
  ℕ, suc, ◌+◌, ◌-◌, Bool, true, false, ◌&&◌, not, Option, none, some, List, [], ◌∷◌, set, replicate,
  ltb, ◌==◌, if◌then◌else◌, u32,
}

pub record DummySkipEntry : Type 0 where
  pub pid : ℕ
  pub live : ℕ
  pub dummy_skipped : Bool

abbrev pub Table : Type 0
Table = List DummySkipEntry

abbrev max_dummy_skip_entries : ℕ
max_dummy_skip_entries = 8

abbrev pub free_entry : DummySkipEntry
free_entry = record { pid = 0; live = 0; dummy_skipped = false }

abbrev pub initial : Table
initial = replicate max_dummy_skip_entries free_entry

pub record MitmProcessInfo : Type 0 where
  pub process_id : ℕ
  pub program_id : ℕ

abbrev pub ldn_mitm_program_id : ℕ
ldn_mitm_program_id = 0x4200000000000010

abbrev pub is_free : DummySkipEntry → Bool
is_free e = e.pid == 0 && (not e.dummy_skipped && e.live == 0)

-- `entry == nullptr`
abbrev pub is_null : Option (ℕ × DummySkipEntry) → Bool
is_null none = true
is_null (some _) = false

-- The loop of `ShouldMitm` at index `i`: the pid's own entry, else the first free one.
unfoldable pub find_entry :
    ℕ → Table → ℕ → Option (ℕ × DummySkipEntry) → Option (ℕ × DummySkipEntry)
find_entry pid [] i entry = entry
find_entry pid (e ∷ table) i entry =
    let rest =
      find_entry pid table (i + 1) (if is_free e && is_null entry then some (i, e) else entry) in
    if e.pid == pid then some (i, e) else rest

-- What `ShouldMitm` does with the entry: the first session of a burst is the dummy.
unfoldable pub use_entry : ℕ → DummySkipEntry → DummySkipEntry × Bool
use_entry pid e =
    let claimed : DummySkipEntry = if e.pid == 0 then record e { pid = pid } else e in
    if not claimed.dummy_skipped
    then (record claimed { dummy_skipped = true }, false)
    else (record claimed { live = u32 (claimed.live + 1) }, true)

abbrev pub with_entry : ℕ → Table → Option (ℕ × DummySkipEntry) → Table × Bool
with_entry pid table none = (table, false)
with_entry pid table (some (i, e)) = let (e', answer) = use_entry pid e in (set table i e', answer)

unfoldable pub should_mitm : (ℕ → Bool) → Table → MitmProcessInfo → Table × Bool
should_mitm is_application_id table info =
    if info.program_id == ldn_mitm_program_id
    then (table, true)
    else if not (is_application_id info.program_id)
    then (table, false)
    else with_entry info.process_id table (find_entry info.process_id table 0 none)

abbrev release : DummySkipEntry → DummySkipEntry
release e = if e.live - 1 == 0 then free_entry else record e { live = e.live - 1 }

-- The table's part of `~BsdBridgeService`.
unfoldable pub session_closed : ℕ → Table → Table
session_closed pid [] = []
session_closed pid (e ∷ table) =
    if e.pid == pid && ltb 0 e.live then release e ∷ table else e ∷ session_closed pid table
