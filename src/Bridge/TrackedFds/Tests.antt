-- ===== src/Bridge/TrackedFds/Tests.antt =====
-- A concrete input for the theorem on the tracked descriptors.
use switch_lan_play_nx.Prelude.{◌≡◌, refl}
use switch_lan_play_nx.Bridge.TrackedFds.{
  initial_fds, track_fd, untrack_fd, get_tracked_type, untracked,
}
use switch_lan_play_nx.Bridge.TrackedFds.Lookup.{get_tracked_type-updates}

get_tracked_type-updates_example :
    (get_tracked_type 5 (track_fd 5 2 initial_fds) ≡ 2)
    × (get_tracked_type 5 (untrack_fd 5 initial_fds) ≡ untracked)
get_tracked_type-updates_example = get_tracked_type-updates 5 2 5 initial_fds refl refl
