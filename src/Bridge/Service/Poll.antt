-- ===== src/Bridge/Service/Poll.antt =====
-- `Poll` of source/bsd/bsd_bridge_service.cpp. Event bits stand as a record of the ones that the
-- code tests; the real poll is an argument.
pub mod Readable
use switch_lan_play_nx.Prelude.{
  ℕ, zero, suc, ◌+◌, ◌-◌, ◌*◌, ◌/◌, ◌%◌, ◌^◌, ◌≤◌, ◌<◌, compare, Ordering, bit_or, min, ◌≡◌, refl,
  sym, ap, ap₂, subst, ◌∙◌, ◌≡⟨◌⟩◌, ◌∎, ◌≢◌, ◌⊎◌, inl, inr, ◌↔◌, Bool, true, false, ◌&&◌, ◌||◌, not,
  Option, none, some, List, [], ◌∷◌, ◌++◌, map, append-nil, append_assoc, arith, first,
  update_first, first-passes, update_first-none, first-update_first, first-update_first_ne,
  update_first-agree, ltb, leb, ◌==◌, if◌then◌else◌, ltb→lt, lt→ltb, le→ltb, leb→le, le→leb, lt→leb,
  ==_iff, ==_refl, ne→==, Bool-cases, Option-cases, if_true, if_false, if_elim, length, get_elem?,
  get_or, set, take, drop, replicate, length-append, length-set, length-take, length-drop,
  take-append-drop, take_all, take-append, drop-append, take-add, take-take, get_elem?-set_self,
  get_elem?-set_ne, get_elem?-lt, length-replicate, u8, u16, u32, add32, sub64, has_bit, be16, be32,
  bytes16, bytes32, be16-bytes, be32-bytes,
}
use switch_lan_play_nx.Bridge.World.{World, Outside, Instance, is_owner}
use switch_lan_play_nx.Bridge.Drain.{drain_raw_relay_queue}
use switch_lan_play_nx.Bridge.VTcp.{ldn_control_port, find_vtcp_conn_by_fd}
use switch_lan_play_nx.Bridge.TrackedFds.{is_negative}
use switch_lan_play_nx.Bridge.Service.Receive.{vfd_has_pending_read}
use switch_lan_play_nx.Bridge.Service.Sockets.{conn_is_synthetic}

-- The bits of `events` and `revents`, and whether any other bit is set.
pub record Events : Type 0 where
  pub pollin : Bool
  pub pollpri : Bool
  pub pollerr : Bool
  pub pollhup : Bool
  pub pollnval : Bool
  pub others : Bool

abbrev pub no_events : Events
no_events = record {
  pollin = false;
  pollpri = false;
  pollerr = false;
  pollhup = false;
  pollnval = false;
  others = false;
}

-- `revents & (POLLIN | POLLPRI | POLLERR | POLLHUP | POLLNVAL)`
abbrev pub is_answered : Events → Bool
is_answered e = e.pollin || (e.pollpri || (e.pollerr || (e.pollhup || e.pollnval)))

-- `revents != 0`
abbrev is_nonzero : Events → Bool
is_nonzero e = is_answered e || e.others

pub record PollFd : Type 0 where
  pub fd : ℕ
  pub events : Events
  pub revents : Events

-- The reply of the real poll: `ret`, `errno` and the `revents` of its entries.
pub record PollReply : Type 0 where
  pub ret : ℕ
  pub err : ℕ
  pub revents : List Events

-- `pfds_out` and `out_count` with `out_errno`, and what was forwarded with its timeout, if anything.
pub record PollAnswer : Type 0 where
  pub fds : List PollFd
  pub count : ℕ
  pub err : ℕ
  pub forwarded : Option (List PollFd × ℕ)

abbrev max_poll_fds : ℕ
max_poll_fds = 32

-- The split of the polled set; an entry with its answer still to come, or one of ours.
abbrev pub is_ours : Instance → World → PollFd → Bool
is_ours i w p = conn_is_synthetic (find_vtcp_conn_by_fd (is_owner i w) p.fd w.vtcp.vtcp_conns)

abbrev pub forwarded_fds : Instance → World → List PollFd → List PollFd
forwarded_fds i w [] = []
forwarded_fds i w (p ∷ fds) =
    if is_ours i w p then forwarded_fds i w fds else p ∷ forwarded_fds i w fds

abbrev pub any_pending : Instance → World → List PollFd → Bool
any_pending i w [] = false
any_pending i w (p ∷ fds) = vfd_has_pending_read p.fd i w || any_pending i w fds

-- The errors of the bridged control socket are not passed on.
abbrev passed_on : Instance → PollFd → Events → Events
passed_on i p e =
    if p.fd == i.bridged_fd && i.bridged_local_port == ldn_control_port
    then record e { pollerr = false; pollhup = false; pollnval = false }
    else e

abbrev pub next_reply : List Events → Events × List Events
next_reply [] = (no_events, [])
next_reply (e ∷ replies) = (e, replies)

-- The entries with what the real poll said of the forwarded ones, in order.
unfoldable pub merged : Instance → World → List PollFd → List Events → List PollFd
merged i w [] replies = []
merged i w (p ∷ fds) replies =
    let (e, later) = next_reply replies in
    if is_ours i w p
    then record p { revents = no_events } ∷ merged i w fds replies
    else record p { revents = passed_on i p e } ∷ merged i w fds later

abbrev pub unanswered : List PollFd → List PollFd
unanswered [] = []
unanswered (p ∷ fds) = record p { revents = no_events } ∷ unanswered fds

abbrev pub count_nonzero : List PollFd → ℕ
count_nonzero [] = 0
count_nonzero (p ∷ fds) =
    if is_nonzero p.revents then suc (count_nonzero fds) else count_nonzero fds

abbrev pub needs_pollin : Instance → World → PollFd → Bool
needs_pollin i w p = not (is_answered p.revents) && vfd_has_pending_read p.fd i w

-- The last loop of `Poll`: POLLIN for what waits on our side, and what it adds to `count`.
unfoldable pub inject : Instance → World → List PollFd → List PollFd × ℕ
inject i w [] = ([], 0)
inject i w (p ∷ fds) =
    let (rest, count) = inject i w fds in
    if needs_pollin i w p
    then (record p { revents = record p.revents { pollin = true } } ∷ rest, suc count)
    else (p ∷ rest, count)

-- Where `out.ret > 0`, as an `s32`.
abbrev pub is_positive : ℕ → Bool
is_positive ret = ltb 0 ret && not (is_negative ret)

abbrev pub after_real : Instance → World → List PollFd → PollReply → List PollFd
after_real i w fds reply =
    if is_positive reply.ret then merged i w fds reply.revents else unanswered fds

abbrev pub finished : Instance → World → List PollFd → ℕ → Option (List PollFd × ℕ) → PollAnswer
finished i w fds err forwarded =
    let (out, injected) = inject i w fds in
    record { fds = out; count = count_nonzero fds + injected; err = err; forwarded = forwarded }

-- `Poll` on entries that fit both buffers and number 32 at most.
unfoldable pub poll_fds :
    (List PollFd → ℕ → PollReply) → List PollFd → ℕ → Instance → World → PollAnswer
poll_fds real fds timeout i w =
    let sent = forwarded_fds i w fds in
    let wait = if any_pending i w fds then 0 else timeout in
    let reply = real sent wait in
    if ltb 0 (length sent)
    then finished i w (after_real i w fds reply) reply.err (some (sent, wait))
    else finished i w (unanswered fds) 0 none

abbrev unexpected_shape : List PollFd → ℕ → ℕ → Bool
unexpected_shape fds_in out_entries nfds =
    is_negative nfds
    || (ltb max_poll_fds nfds || (ltb (length fds_in) nfds || ltb out_entries nfds))

abbrev with_replies : List PollFd → List Events → List PollFd
with_replies [] replies = []
with_replies (p ∷ fds) replies =
    let (e, later) = next_reply replies in record p { revents = e } ∷ with_replies fds later

unfoldable pub poll :
    Outside
    → (List PollFd → ℕ → PollReply)
    → List PollFd
    → ℕ
    → ℕ
    → ℕ
    → Instance
    → World
    → World × PollAnswer
poll o real fds_in out_entries nfds timeout i w₀ =
    let w = drain_raw_relay_queue o w₀ in
    let reply = real fds_in timeout in
    if unexpected_shape fds_in out_entries nfds
    then (
      w,
      record {
        fds = with_replies fds_in reply.revents;
        count = reply.ret;
        err = reply.err;
        forwarded = some (fds_in, timeout);
      },
    )
    else (w, poll_fds real (take nfds fds_in) timeout i w)
