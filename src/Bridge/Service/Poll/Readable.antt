-- ===== src/Bridge/Service/Poll/Readable.antt =====
-- What `Poll` reports and what it forwards.
use switch_lan_play_nx.Prelude.{
  ℕ, ◌+◌, ◌≤◌, ◌≡◌, refl, ap, ◌∙◌, true, false, Option, none, some, List, [], ◌∷◌, arith, ltb,
  if◌then◌else◌, if_true, if_elim, length,
}
use switch_lan_play_nx.Bridge.World.{World, Instance}
use switch_lan_play_nx.Bridge.Service.Receive.{vfd_has_pending_read}
use switch_lan_play_nx.Bridge.Service.Poll.{
  Events, PollFd, PollReply, PollAnswer, is_answered, is_ours, forwarded_fds, any_pending, merged,
  next_reply, is_positive, unanswered, count_nonzero, needs_pollin, inject, after_real, finished,
  poll_fds,
}

-- Every entry whose descriptor has data on our side is answered.
abbrev AllReadable : Instance → World → List PollFd → Type 0
AllReadable i w [] = Unit {0}
AllReadable i w (p ∷ fds) =
    (vfd_has_pending_read p.fd i w ≡ true → is_answered p.revents ≡ true) × AllReadable i w fds

abbrev NoneOurs : Instance → World → List PollFd → Type 0
NoneOurs i w [] = Unit {0}
NoneOurs i w (p ∷ fds) = (is_ours i w p ≡ false) × NoneOurs i w fds

abbrev fds_of : List PollFd → List ℕ
fds_of [] = []
fds_of (p ∷ fds) = p.fd ∷ fds_of fds

module _ (i : Instance) (w : World) where
  inject-AllReadable : (fds : List PollFd) → AllReadable i w (inject i w fds).0
  unfolding inject
  inject-AllReadable [] = tt
  inject-AllReadable (p ∷ fds) =
      if_elim (λ (r : List PollFd × ℕ). AllReadable i w r.0) (needs_pollin i w p) _ _
        (λ _. (λ _. refl, inject-AllReadable fds))
        (λ unneeded. (λ waits. ground arith, inject-AllReadable fds))

  forwarded_fds-NoneOurs : (fds : List PollFd) → NoneOurs i w (forwarded_fds i w fds)
  forwarded_fds-NoneOurs [] = tt
  forwarded_fds-NoneOurs (p ∷ fds) =
      if_elim (NoneOurs i w) (is_ours i w p) (forwarded_fds i w fds) (p ∷ forwarded_fds i w fds)
        (λ _. forwarded_fds-NoneOurs fds) (λ foreign. (foreign, forwarded_fds-NoneOurs fds))

  inject-fds_of : (fds : List PollFd) → fds_of (inject i w fds).0 ≡ fds_of fds
  unfolding inject
  inject-fds_of [] = refl
  inject-fds_of (p ∷ fds) = ground (arith, inject-fds_of fds)

  merged-fds_of :
      (fds : List PollFd) (replies : List Events) → fds_of (merged i w fds replies) ≡ fds_of fds
  unfolding merged
  merged-fds_of [] replies = refl
  merged-fds_of (p ∷ fds) replies =
      if_elim (λ l. fds_of l ≡ p.fd ∷ fds_of fds) (is_ours i w p) _ _
        (λ _. ap (◌∷◌ p.fd) (merged-fds_of fds replies))
        (λ _. ap (◌∷◌ p.fd) (merged-fds_of fds (next_reply replies).1))

  unanswered-fds_of : (fds : List PollFd) → fds_of (unanswered fds) ≡ fds_of fds
  unanswered-fds_of [] = refl
  unanswered-fds_of (p ∷ fds) = ap (◌∷◌ p.fd) (unanswered-fds_of fds)

  after_real-fds_of :
      (fds : List PollFd) (heard : PollReply) → fds_of (after_real i w fds heard) ≡ fds_of fds
  after_real-fds_of fds heard =
      if_elim (λ l. fds_of l ≡ fds_of fds) (is_positive heard.ret) (merged i w fds heard.revents)
        (unanswered fds) (λ _. merged-fds_of fds heard.revents) (λ _. unanswered-fds_of fds)

  -- What was forwarded names no descriptor of ours, and does not wait where data is there already.
  abbrev pub ForwardedFits : List PollFd → Option (List PollFd × ℕ) → Type 0
  ForwardedFits fds none = Unit {0}
  ForwardedFits fds (some (sent, wait)) =
      NoneOurs i w sent × (any_pending i w fds ≡ true → wait ≡ 0)

  -- No entry has a bit that Poll does not test.
  abbrev OnlyTested : List PollFd → Type 0
  OnlyTested [] = Unit {0}
  OnlyTested (p ∷ fds) = (p.revents.others ≡ false) × OnlyTested fds

  -- Whatever the entries before its last loop: the count that Poll sets is at least the number of
  -- entries with nonzero revents that it hands back, and is that number if none of them has
  -- another bit (such as POLLOUT) than the five that the loop tests.
  finished-count :
      (fds : List PollFd) (err : ℕ) (sent : Option (List PollFd × ℕ))
      → let a = finished i w fds err sent in
        (count_nonzero a.fds ≤ a.count) × (OnlyTested fds → a.count ≡ count_nonzero a.fds)
  unfolding inject
  finished-count fds err sent = (at_most fds, exact fds)
    where
      at_most :
          (l : List PollFd) → count_nonzero (inject i w l).0 ≤ count_nonzero l + (inject i w l).1
      at_most [] = omega arith
      at_most (p ∷ l) = ground (arith, at_most l)

      exact :
          (l : List PollFd)
          → OnlyTested l
          → count_nonzero l + (inject i w l).1 ≡ count_nonzero (inject i w l).0
      exact [] only = refl
      exact (p ∷ l) only = ground (arith, exact l only.1)

  abbrev pub Answers : List PollFd → PollAnswer → Type 0
  Answers fds a =
      AllReadable i w a.fds
      × (fds_of a.fds ≡ fds_of fds)
      × ForwardedFits fds a.forwarded
      × (count_nonzero a.fds ≤ a.count)

  -- Poll on any entries that fit, whatever the real poll replies: every entry whose descriptor
  -- has data on our side comes back answered, the entries keep their descriptors and their order,
  -- no virtual connection with a synthetic descriptor is forwarded, the real poll does not wait if
  -- any descriptor has data on our side, and the count that Poll sets is at least the number of
  -- entries with nonzero revents that it hands back.
  pub poll_fds-Answers :
      (real : List PollFd → ℕ → PollReply) (fds : List PollFd) (timeout : ℕ)
      → Answers fds (poll_fds real fds timeout i w)
  unfolding poll_fds
  poll_fds-Answers real fds timeout =
      if_elim (Answers fds) (ltb 0 (length sent)) _ _
        (λ _. (
          inject-AllReadable (after_real i w fds heard),
          inject-fds_of (after_real i w fds heard) ∙ after_real-fds_of fds heard,
          (forwarded_fds-NoneOurs fds, if_true (any_pending i w fds) 0 timeout),
          (finished-count (after_real i w fds heard) heard.err (some (sent, wait))).0,
        ))
        (λ _. (
          inject-AllReadable (unanswered fds),
          inject-fds_of (unanswered fds) ∙ unanswered-fds_of fds,
          tt,
          (finished-count (unanswered fds) 0 none).0,
        ))
    where
      sent : List PollFd
      sent = forwarded_fds i w fds

      wait : ℕ
      wait = if any_pending i w fds then 0 else timeout

      heard : PollReply
      heard = real sent wait
