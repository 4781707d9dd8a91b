-- ===== src/Bridge/Service/Forward.antt =====
-- Commands that go to the real bsd:u service, and the two that `Socket` and `SocketExempt` share.
use switch_lan_play_nx.Prelude.{ℕ, Bool, ◌&&◌, none, List, [], ◌∷◌, leb, ◌==◌}
use switch_lan_play_nx.Bridge.World.{World, Outside, Instance, Request, Answer, dispatch, forwarded}
use switch_lan_play_nx.Bridge.TrackedFds.{track_fd}

abbrev pub request : ℕ → List ℕ → List (List ℕ) → Request
request command arguments buffers = record {
  command = command;
  arguments = arguments;
  buffers = buffers;
  override_pid = none;
}

-- A command without logic of its own.
unfoldable pub forward : Outside → Request → World → World × Answer
forward o r w = let (w', reply) = dispatch o r w in (w', forwarded reply)

abbrev pub is_bridged : Instance → ℕ → Bool
is_bridged i fd = leb fd 0x7fffffff && fd == i.bridged_fd

-- `Socket` (command 2) and `SocketExempt` (command 3).
unfoldable pub socket : ℕ → Outside → ℕ → ℕ → ℕ → Instance → World → Instance × World × Answer
socket command o domain socket_type protocol i w =
    let (w', reply) = dispatch o (request command (domain ∷ socket_type ∷ protocol ∷ []) []) w in
    (record i { tracked = track_fd reply.ret socket_type i.tracked }, w', forwarded reply)
