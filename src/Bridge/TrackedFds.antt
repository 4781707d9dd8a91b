-- ===== src/Bridge/TrackedFds.antt =====
-- The descriptor types that `BsdBridgeService` tracks (`TrackFd`, `UntrackFd`, `GetTrackedType`), in
-- source/bsd/bsd_bridge_service.cpp. Descriptors and types are the bit patterns of their `s32`.
pub mod Lookup
mod Tests
use switch_lan_play_nx.Prelude.{
  ℕ, zero, suc, ◌+◌, ◌-◌, ◌*◌, ◌/◌, ◌%◌, ◌^◌, ◌≤◌, ◌<◌, compare, Ordering, bit_or, min, ◌≡◌, refl,
  sym, ap, ap₂, subst, ◌∙◌, ◌≡⟨◌⟩◌, ◌∎, ◌≢◌, ◌⊎◌, inl, inr, ◌↔◌, Bool, true, false, ◌&&◌, ◌||◌, not,
  Option, none, some, List, [], ◌∷◌, ◌++◌, map, append-nil, append_assoc, arith, first,
  update_first, first-passes, update_first-none, first-update_first, first-update_first_ne,
  update_first-agree, ltb, leb, ◌==◌, if◌then◌else◌, ltb→lt, lt→ltb, le→ltb, leb→le, le→leb, lt→leb,
  ==_iff, ==_refl, ne→==, Bool-cases, Option-cases, if_true, if_false, if_elim, length, get_elem?,
  get_or, set, take, drop, replicate, length-append, length-set, length-take, length-drop,
  take-append-drop, take_all, take-append, drop-append, take-add, take-take, get_elem?-set_self,
  get_elem?-set_ne, get_elem?-lt, length-replicate, u8, u16, u32, add32, sub64, has_bit, be16, be32,
  bytes16, bytes32, be16-bytes, be32-bytes,
}

pub record TrackedFd : Type 0 where
  pub fd : ℕ
  pub socket_type : ℕ

abbrev max_tracked_fds : ℕ
max_tracked_fds = 16

-- -1 as an `s32`, in an empty place and as the answer for an unknown descriptor.
abbrev pub untracked : ℕ
untracked = 0xffffffff

abbrev pub is_negative : ℕ → Bool
is_negative fd = leb 0x80000000 fd

abbrev pub initial_fds : List TrackedFd
initial_fds = replicate max_tracked_fds (record { fd = untracked; socket_type = untracked })

-- The loop of `TrackFd`.
unfoldable pub place_fd : ℕ → ℕ → List TrackedFd → List TrackedFd
place_fd fd socket_type fds =
    update_first (λ t. t.fd == untracked || t.fd == fd)
      (λ _. record { fd = fd; socket_type = socket_type }) fds

unfoldable pub track_fd : ℕ → ℕ → List TrackedFd → List TrackedFd
track_fd fd socket_type fds = if is_negative fd then fds else place_fd fd socket_type fds

unfoldable pub untrack_fd : ℕ → List TrackedFd → List TrackedFd
untrack_fd fd [] = []
untrack_fd fd (t ∷ fds) =
    (if t.fd == fd then record t { fd = untracked } else t) ∷ untrack_fd fd fds

unfoldable pub get_tracked_type : ℕ → List TrackedFd → ℕ
get_tracked_type fd fds = elim (first (λ t. t.fd == fd) fds) [
  | none ↦ untracked
  | some t ↦ t.socket_type
]
