-- ===== src/Relay/Reassembly/Slots.antt =====
-- The choice of a slot in `ReassembleFrag`.
use switch_lan_play_nx.Prelude.{
  ℕ, zero, suc, ◌≡◌, refl, Bool, true, not, Option, none, some, List, [], ◌∷◌, set, ◌<◌, length,
  arith,
}
use switch_lan_play_nx.Relay.Reassembly.{
  ReassemblySlot, Reassembler, bytes_eq, find_slot, next_slot, in_group, claim, choose_slot,
}

bytes_eq_refl : (xs : List ℕ) → bytes_eq xs xs ≡ true
unfolding bytes_eq
bytes_eq_refl [] = refl
bytes_eq_refl (x ∷ xs) = ground (arith, bytes_eq_refl xs)

next_slot-eq_some :
    (o : Option (ℕ × ReassemblySlot)) (i : ℕ) (s : ReassemblySlot)
    → next_slot o ≡ some (suc i, s)
    → o ≡ some (i, s)
next_slot-eq_some none i s e = cc
next_slot-eq_some (some (j, t)) i s e = ground arith

module _ (test : ReassemblySlot → Bool) where
  -- Overwriting the slot that was found by one that passes the test leaves it the first.
  find_slot-set_found :
      (slots : List ReassemblySlot) (i : ℕ) (s t : ReassemblySlot)
      → find_slot test slots ≡ some (i, s)
      → test t ≡ true
      → find_slot test (set slots i t) ≡ some (i, t)
  unfolding find_slot
  find_slot-set_found [] i s t e h = cc
  find_slot-set_found (x ∷ slots) zero s t e h = rw h
  find_slot-set_found (x ∷ slots) (suc i) s t e h =
      ground (arith, next_slot-eq_some (find_slot test slots) i s, find_slot-set_found slots i s t)

  find_slot-set-none :
      (slots : List ReassemblySlot) (i : ℕ) (t : ReassemblySlot)
      → find_slot test slots ≡ none
      → i < length slots
      → test t ≡ true
      → find_slot test (set slots i t) ≡ some (i, t)
  unfolding find_slot
  find_slot-set-none [] i t e l h = absurd (omega arith)
  find_slot-set-none (x ∷ slots) zero t e l h = rw h
  find_slot-set-none (x ∷ slots) (suc i) t e l h = ground (arith, find_slot-set-none slots i t)

  find_slot_lt :
      (slots : List ReassemblySlot) (i : ℕ) (s : ReassemblySlot)
      → find_slot test slots ≡ some (i, s)
      → i < length slots
  unfolding find_slot
  find_slot_lt [] i s e = cc
  find_slot_lt (x ∷ slots) zero s e = omega arith
  find_slot_lt (x ∷ slots) (suc i) s e =
      ground (arith, next_slot-eq_some (find_slot test slots) i s, find_slot_lt slots i s)

-- `s` at `i` is what a fragment of the group is added to, and once a slot of the group is stored
-- there, the next fragment finds it.
pub record Chosen (r : Reassembler) (id : ℕ) (src : List ℕ) (i : ℕ) (s : ReassemblySlot)
    : Type 0 where
  pub chosen : choose_slot r id src ≡ some (i, s)
  pub stays :
      (t : ReassemblySlot)
      → in_group id src t ≡ true
      → find_slot (in_group id src) (set r.slots i t) ≡ some (i, t)

-- A group under way is chosen.
pub found-Chosen :
    (r : Reassembler) (id : ℕ) (src : List ℕ) (i : ℕ) (s : ReassemblySlot)
    → find_slot (in_group id src) r.slots ≡ some (i, s)
    → Chosen r id src i s
unfolding choose_slot
found-Chosen r id src i s e = record {
  chosen = rw (e, choose_slot) refl;
  stays = λ t. find_slot-set_found (in_group id src) r.slots i s t e;
}

-- A new group claims the first free slot.
pub free-Chosen :
    (r : Reassembler) (id : ℕ) (src : List ℕ) (i : ℕ) (s : ReassemblySlot)
    → find_slot (in_group id src) r.slots ≡ none
    → find_slot (λ t. not t.used) r.slots ≡ some (i, s)
    → Chosen r id src i (claim id src s)
unfolding choose_slot
free-Chosen r id src i s e f = record {
  chosen = rw (choose_slot, e, f) refl;
  stays = λ t.
      find_slot-set-none (in_group id src) r.slots i t e
        (find_slot_lt (λ t. not t.used) r.slots i s f);
}

pub in_group-claim :
    (id : ℕ) (src : List ℕ) (s : ReassemblySlot) → in_group id src (claim id src s) ≡ true
in_group-claim id src s = ground (arith, bytes_eq_refl src)
