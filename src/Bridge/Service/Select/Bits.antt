-- ===== src/Bridge/Service/Select/Bits.antt =====
-- Which bits `Select` hands back and which it forwards.
use switch_lan_play_nx.Prelude.{
  ℕ, zero, suc, ◌+◌, ◌<◌, ◌≡◌, refl, sym, ap, subst, ◌∙◌, ◌⊎◌, inl, inr, Bool, true, false, ◌&&◌,
  ◌||◌, not, List, [], ◌∷◌, arith, ltb, ◌==◌, if◌then◌else◌, ltb→lt, ==_iff, Bool-cases, if_true,
  length, get_or, set, take, length-set,
}
use switch_lan_play_nx.Bridge.World.{World, Instance}
use switch_lan_play_nx.Bridge.TrackedFds.{is_negative}
use switch_lan_play_nx.Bridge.Service.Receive.{vfd_has_pending_read}
use switch_lan_play_nx.Bridge.Service.Select.{
  Timeval, SelectReply, no_wait, select_bits, is_synthetic_fd, forward_readfds, any_pending_below,
  has_word, inject_fd, inject_fds, our_fds, select_fds,
}

abbrev pub names_fd : ℕ → List ℕ → Bool
names_fd k [] = false
names_fd k (fd ∷ fds) = fd == k || names_fd k fds

-- `k` is a descriptor with data on our side, and its word is in a set of `len` bits.
abbrev pub is_shown : Instance → World → ℕ → ℕ → Bool
is_shown i w len k = not (is_negative k) && (vfd_has_pending_read k i w && has_word k len)

get_or-set :
    (bits : List Bool) (j k : ℕ)
    → j < length bits
    → get_or (set bits j true) k false ≡ (j == k || get_or bits k false)
get_or-set [] j k h = absurd (omega arith)
get_or-set (b ∷ bits) zero zero h = refl
get_or-set (b ∷ bits) zero (suc k) h = ground arith
get_or-set (b ∷ bits) (suc j) zero h = ground arith
get_or-set (b ∷ bits) (suc j) (suc k) h = get_or-set bits j k (omega arith) ∙ ground arith

or_and : (a b c d : Bool) → ((a || (b && c)) || (b && d)) ≡ (a || (b && (c || d)))
or_and a b c d = ground arith

module _ (i : Instance) (w : World) where
  length-inject_fd :
      (fd : ℕ) (bits : List Bool) (count : ℕ)
      → length (inject_fd i w fd (bits, count)).0 ≡ length bits
  length-inject_fd fd bits count = ground (arith, length-set bits fd true)

  inject_fd-bit :
      (fd : ℕ) (bits : List Bool) (count k : ℕ)
      → get_or (inject_fd i w fd (bits, count)).0 k false
        ≡ (get_or bits k false || (is_shown i w (length bits) k && fd == k))
  inject_fd-bit fd bits count k = elim (Bool-cases (fd == k)) [
    | inl same ↦
        subst
          (λ j.
            get_or (inject_fd i w fd (bits, count)).0 j false
            ≡ (get_or bits j false || (is_shown i w (length bits) j && fd == j)))
          ((==_iff fd k).0 same) (ground (arith, get_or-set bits fd fd))
    | inr other ↦ ground (arith, get_or-set bits fd k)
  ]

  inject_fds-bit :
      (fds : List ℕ) (bits : List Bool) (count k : ℕ)
      → get_or (inject_fds i w fds (bits, count)).0 k false
        ≡ (get_or bits k false || (is_shown i w (length bits) k && names_fd k fds))
  unfolding inject_fds
  inject_fds-bit [] bits count k = ground arith
  inject_fds-bit (fd ∷ fds) bits count k =
      let (bits', count') = inject_fd i w fd (bits, count) in
      inject_fds-bit fds bits' count' k
      ∙ ap (λ n. get_or bits' k false || (is_shown i w n k && names_fd k fds))
          (length-inject_fd fd bits count)
      ∙ ap (λ t. t || (is_shown i w (length bits) k && names_fd k fds))
          (inject_fd-bit fd bits count k)
      ∙ or_and (get_or bits k false) (is_shown i w (length bits) k) (fd == k) (names_fd k fds)

  forward_readfds-bit :
      (nfds fd : ℕ) (bits : List Bool) (k : ℕ)
      → get_or (forward_readfds i w nfds fd bits) k false
        ≡ (get_or bits k false && not (ltb (fd + k) nfds && is_synthetic_fd i w (fd + k)))
  unfolding forward_readfds
  forward_readfds-bit nfds fd [] k = refl
  forward_readfds-bit nfds fd (b ∷ bits) zero =
      ap (λ j. b && not (ltb j nfds && is_synthetic_fd i w j)) {x = fd} {y = fd + 0} (omega arith)
  forward_readfds-bit nfds fd (b ∷ bits) (suc k) =
      forward_readfds-bit nfds (suc fd) bits k
      ∙ ap (λ j. get_or bits k false && not (ltb j nfds && is_synthetic_fd i w j)) {x = suc fd + k}
          {y = fd + suc k} (omega arith)

  any_pending_below-false :
      (nfds k : ℕ)
      → any_pending_below i w nfds ≡ false
      → k < nfds
      → vfd_has_pending_read k i w ≡ false
  unfolding any_pending_below
  any_pending_below-false zero k h lt = absurd (omega arith)
  any_pending_below-false (suc n) k h lt = elim (Bool-cases (k == n)) [
    | inl same ↦
        subst (λ j. vfd_has_pending_read j i w ≡ false) (sym ((==_iff k n).0 same)) (ground arith)
    | inr other ↦ any_pending_below-false n k (ground arith) (ground arith)
  ]

  waits :
      (nfds k : ℕ) (timeout : Timeval)
      → ((ltb k nfds && vfd_has_pending_read k i w) ≡ false)
        ⊎ ((if any_pending_below i w nfds then no_wait else timeout) ≡ no_wait)
  waits nfds k timeout = elim (Bool-cases (any_pending_below i w nfds)) [
    | inl pending ↦ inr (if_true (any_pending_below i w nfds) no_wait timeout pending)
    | inr idle ↦ elim (Bool-cases (ltb k nfds)) [
      | inl below ↦ inl (ground (arith, any_pending_below-false nfds k idle (ltb→lt k nfds below)))
      | inr above ↦ inl (ground arith)
    ]
  ]

  -- Select on sets that reach as far as the descriptors, whatever the real select replies, and any
  -- descriptor `k`: its bit comes back set exactly if the real select set it or it is one that
  -- Select answers for, with data on our side and its word in the buffer; its bit is forwarded
  -- exactly if the caller asked for it in the words of the set and it is not a synthetic one below
  -- `nfds`; and the real select does not wait if `k` is below `nfds` and has data on our side.
  pub select_fds-bits :
      (real : List Bool → Timeval → SelectReply) (readfds_in : List Bool) (nfds : ℕ)
      (timeout : Timeval) (k : ℕ)
      → let a = select_fds real readfds_in nfds timeout i w in
        let heard = (real a.sent a.timeout).readfds in
        (get_or a.readfds k false
          ≡ (get_or heard k false || (is_shown i w (length heard) k && names_fd k (our_fds i w))))
        × (get_or a.sent k false ≡ (
            get_or (take (select_bits nfds) readfds_in) k false
            && not (ltb k nfds && is_synthetic_fd i w k)))
        × (((ltb k nfds && vfd_has_pending_read k i w) ≡ false) ⊎ (a.timeout ≡ no_wait))
  unfolding select_fds
  select_fds-bits real readfds_in nfds timeout k =
      let sent = forward_readfds i w nfds 0 (take (select_bits nfds) readfds_in) in
      let wait = if any_pending_below i w nfds then no_wait else timeout in
      let reply = real sent wait in
      (
        inject_fds-bit (our_fds i w) reply.readfds reply.ret k,
        forward_readfds-bit nfds 0 (take (select_bits nfds) readfds_in) k
            ∙ ap
                (λ j.
                  get_or (take (select_bits nfds) readfds_in) k false
                  && not (ltb j nfds && is_synthetic_fd i w j))
                {x = 0 + k} {y = k} (omega arith),
        waits nfds k timeout,
      )
