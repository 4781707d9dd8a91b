-- ===== src/Bridge/Service/Select.antt =====
-- `Select` of source/bsd/bsd_bridge_service.cpp. A set of descriptors is the list of its bits, the
-- words one after the other, each from its lowest bit on; the real select is an argument.
pub mod Bits
use switch_lan_play_nx.Prelude.{
  ℕ, zero, suc, ◌+◌, ◌-◌, ◌*◌, ◌/◌, ◌%◌, ◌^◌, ◌≤◌, ◌<◌, compare, Ordering, bit_or, min, ◌≡◌, refl,
  sym, ap, ap₂, subst, ◌∙◌, ◌≡⟨◌⟩◌, ◌∎, ◌≢◌, ◌⊎◌, inl, inr, ◌↔◌, Bool, true, false, ◌&&◌, ◌||◌, not,
  Option, none, some, List, [], ◌∷◌, ◌++◌, map, append-nil, append_assoc, arith, first,
  update_first, first-passes, update_first-none, first-update_first, first-update_first_ne,
  update_first-agree, first-update_first_new, first-narrow, ltb, leb, ◌==◌, if◌then◌else◌, ltb→lt,
  lt→ltb, le→ltb, leb→le, le→leb, lt→leb, ==_iff, ==_refl, ne→==, Bool-cases, Option-cases, ◌>>=◌,
  if_true, if_false, if_elim, split_first, All, All-append, All-mono, Lacks, split_first-last,
  split_first-append, Rejoins, split_first-Rejoins, length, get_elem?, get_or, set, take, drop,
  replicate, length-append, length-set, length-take, length-drop, take-append-drop, take_all,
  take-append, drop-append, take-add, take-take, get_elem?-set_self, get_elem?-set_ne, get_elem?-lt,
  length-replicate, u8, u16, u32, add32, sub64, has_bit, be16, be32, bytes16, bytes32, be16-bytes,
  be32-bytes,
}
use switch_lan_play_nx.Bridge.World.{World, Outside, Instance, is_owner}
use switch_lan_play_nx.Bridge.Drain.{drain_raw_relay_queue}
use switch_lan_play_nx.Bridge.VTcp.{VTcpConn, find_vtcp_conn_by_fd}
use switch_lan_play_nx.Bridge.TrackedFds.{is_negative}
use switch_lan_play_nx.Bridge.Service.Receive.{vfd_has_pending_read}
use switch_lan_play_nx.Bridge.Service.Sockets.{conn_is_synthetic}

-- `SelectTimeval`
pub record Timeval : Type 0 where
  pub sec : ℕ
  pub usec : ℕ
  pub is_null : Bool

abbrev pub no_wait : Timeval
no_wait = record { sec = 0; usec = 0; is_null = false }

-- The reply of the real select: `ret`, `errno` and the bits of `readfds_out`.
pub record SelectReply : Type 0 where
  pub ret : ℕ
  pub err : ℕ
  pub readfds : List Bool

-- `out_count` with `out_errno`, the bits of `readfds_out`, and what was forwarded.
pub record SelectAnswer : Type 0 where
  pub count : ℕ
  pub err : ℕ
  pub readfds : List Bool
  pub sent : List Bool
  pub timeout : Timeval

abbrev max_select_fds : ℕ
max_select_fds = 1024

-- The bits of `nwords` words; 0 for a number of descriptors out of range.
abbrev pub select_bits : ℕ → ℕ
select_bits nfds = if ltb 0 nfds && leb nfds max_select_fds then (nfds + 31) / 32 * 32 else 0

-- `c != nullptr && c->fd >= 1000`
abbrev pub is_synthetic_fd : Instance → World → ℕ → Bool
is_synthetic_fd i w fd =
    conn_is_synthetic (find_vtcp_conn_by_fd (is_owner i w) fd w.vtcp.vtcp_conns)

-- The set from bit `fd` on, with the synthetic descriptors below `nfds` taken out.
unfoldable pub forward_readfds : Instance → World → ℕ → ℕ → List Bool → List Bool
forward_readfds i w nfds fd [] = []
forward_readfds i w nfds fd (asked ∷ bits) =
    (asked && not (ltb fd nfds && is_synthetic_fd i w fd)) ∷ forward_readfds i w nfds (suc fd) bits

-- Whether any descriptor below `nfds` has data on our side.
unfoldable pub any_pending_below : Instance → World → ℕ → Bool
any_pending_below i w zero = false
any_pending_below i w (suc fd) = any_pending_below i w fd || vfd_has_pending_read fd i w

-- The buffer reaches as far as the word of `fd`.
abbrev pub has_word : ℕ → ℕ → Bool
has_word fd len = leb ((fd / 32 + 1) * 32) len

abbrev pub counted : ℕ → ℕ
counted count = if is_negative count then count else count + 1

-- The lambda `inject` of `Select`, on the bits and the count.
abbrev pub inject_fd : Instance → World → ℕ → List Bool × ℕ → List Bool × ℕ
inject_fd i w fd (bits, count) =
    if is_negative fd || not (vfd_has_pending_read fd i w)
    then (bits, count)
    else if not (has_word fd (length bits))
    then (bits, count)
    else if get_or bits fd false
    then (bits, count)
    else (set bits fd true, counted count)

unfoldable pub inject_fds : Instance → World → List ℕ → List Bool × ℕ → List Bool × ℕ
inject_fds i w [] r = r
inject_fds i w (fd ∷ fds) r = inject_fds i w fds (inject_fd i w fd r)

abbrev pub used_fds : List VTcpConn → List ℕ
used_fds [] = []
used_fds (c ∷ conns) = if c.used then c.fd ∷ used_fds conns else used_fds conns

-- The descriptors that `Select` answers for.
abbrev pub our_fds : Instance → World → List ℕ
our_fds i w =
    i.bridged_fd ∷ (if is_owner i w then w.vtcp.tcp_listen_fd ∷ used_fds w.vtcp.vtcp_conns else [])

-- `Select` on sets that reach as far as the descriptors.
unfoldable pub select_fds :
    (List Bool → Timeval → SelectReply) → List Bool → ℕ → Timeval → Instance → World → SelectAnswer
select_fds real readfds_in nfds timeout i w =
    let sent = forward_readfds i w nfds 0 (take (select_bits nfds) readfds_in) in
    let wait = if any_pending_below i w nfds then no_wait else timeout in
    let reply = real sent wait in
    let (readfds, count) = inject_fds i w (our_fds i w) (reply.readfds, reply.ret) in
    record { count = count; err = reply.err; readfds = readfds; sent = sent; timeout = wait }

abbrev unexpected_sets : ℕ → ℕ → ℕ → Bool
unexpected_sets in_len out_len nfds =
    select_bits nfds == 0 || (ltb in_len (select_bits nfds) || ltb out_len (select_bits nfds))

unfoldable pub select :
    Outside
    → (List Bool → Timeval → SelectReply)
    → List Bool
    → ℕ
    → ℕ
    → Timeval
    → Instance
    → World
    → World × SelectAnswer
select o real readfds_in out_len nfds timeout i w₀ =
    let w = drain_raw_relay_queue o w₀ in
    let reply = real readfds_in timeout in
    if is_negative nfds || unexpected_sets (length readfds_in) out_len nfds
    then (
      w,
      record {
        count = reply.ret;
        err = reply.err;
        readfds = reply.readfds;
        sent = readfds_in;
        timeout = timeout;
      },
    )
    else (w, select_fds real readfds_in nfds timeout i w)
