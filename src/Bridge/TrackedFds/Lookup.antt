-- ===== src/Bridge/TrackedFds/Lookup.antt =====
-- The tracked descriptors as a map: what is looked up after tracking and untracking.
use switch_lan_play_nx.Prelude.{
  ℕ, ◌≡◌, refl, ◌≢◌, Bool, true, false, ◌&&◌, ◌||◌, List, [], ◌∷◌, arith, ◌==◌, if◌then◌else◌,
}
use switch_lan_play_nx.Bridge.TrackedFds.{
  TrackedFd, untracked, is_negative, place_fd, track_fd, untrack_fd, get_tracked_type,
}

get_tracked_type-place_fd :
    (fd socket_type other : ℕ) (fds : List TrackedFd)
    → other ≢ untracked
    → other ≢ fd
    → get_tracked_type other (place_fd fd socket_type fds) ≡ get_tracked_type other fds
unfolding place_fd get_tracked_type
get_tracked_type-place_fd fd socket_type other [] real apart = refl
get_tracked_type-place_fd fd socket_type other (t ∷ fds) real apart =
    ground (arith, get_tracked_type-place_fd fd socket_type other fds real apart)

abbrev is_place : ℕ → TrackedFd → Bool
is_place fd t = t.fd == untracked || t.fd == fd

abbrev has_place : ℕ → List TrackedFd → Bool
has_place fd [] = false
has_place fd (t ∷ fds) = is_place fd t || has_place fd fds

get_tracked_type-place_fd_self :
    (fd socket_type : ℕ) (fds : List TrackedFd)
    → has_place fd fds ≡ true
    → get_tracked_type fd (place_fd fd socket_type fds) ≡ socket_type
unfolding place_fd get_tracked_type
get_tracked_type-place_fd_self fd socket_type [] place = absurd (ground arith)
get_tracked_type-place_fd_self fd socket_type (t ∷ fds) place =
    ground (arith, get_tracked_type-place_fd_self fd socket_type fds)

place_fd-full :
    (fd socket_type : ℕ) (fds : List TrackedFd)
    → has_place fd fds ≡ false
    → place_fd fd socket_type fds ≡ fds
unfolding place_fd
place_fd-full fd socket_type [] full = refl
place_fd-full fd socket_type (t ∷ fds) full = ground (arith, place_fd-full fd socket_type fds)

get_tracked_type-track_fd :
    (fd socket_type other : ℕ) (fds : List TrackedFd)
    → is_negative fd ≡ false
    → is_negative other ≡ false
    → get_tracked_type other (track_fd fd socket_type fds)
      ≡ (if fd == other && has_place fd fds then socket_type else get_tracked_type other fds)
unfolding track_fd
get_tracked_type-track_fd fd socket_type other fds real other_real = ground (
  arith,
  get_tracked_type-place_fd fd socket_type other fds,
  get_tracked_type-place_fd_self fd socket_type fds,
  place_fd-full fd socket_type fds,
)

get_tracked_type-untrack_fd :
    (fd other : ℕ) (fds : List TrackedFd)
    → is_negative other ≡ false
    → get_tracked_type other (untrack_fd fd fds)
      ≡ (if fd == other then untracked else get_tracked_type other fds)
unfolding untrack_fd get_tracked_type
get_tracked_type-untrack_fd fd other [] real = ground arith
get_tracked_type-untrack_fd fd other (t ∷ fds) real =
    ground (arith, get_tracked_type-untrack_fd fd other fds real)

-- The table as a map, for descriptors that are not negative: after TrackFd the descriptor has its
-- type where the table has a free place or an entry of it, after UntrackFd it has type -1, and no
-- other descriptor's type changes by either; without such a place TrackFd changes no type.
pub get_tracked_type-updates :
    (fd socket_type other : ℕ) (fds : List TrackedFd)
    → is_negative fd ≡ false
    → is_negative other ≡ false
    → (get_tracked_type other (track_fd fd socket_type fds)
        ≡ (if fd == other && has_place fd fds then socket_type else get_tracked_type other fds))
      × (get_tracked_type other (untrack_fd fd fds)
          ≡ (if fd == other then untracked else get_tracked_type other fds))
get_tracked_type-updates fd socket_type other fds real other_real = (
  get_tracked_type-track_fd fd socket_type other fds real other_real,
  get_tracked_type-untrack_fd fd other fds other_real,
)
