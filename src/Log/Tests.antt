-- ===== src/Log/Tests.antt =====
-- The log on small inputs.
use switch_lan_play_nx.Prelude.{
  ℕ, zero, suc, ◌+◌, ◌≤◌, ◌≡◌, refl, ap, ap₂, ◌∙◌, ◌⊎◌, inl, inr, true, none, some, List, [], ◌∷◌,
  ◌++◌, append-nil, arith, ◌==◌, if◌then◌else◌, if_elim, length, take, drop, take_all,
}
use switch_lan_play_nx.Log.{
  FileSystem, Log, at_boot, initialize, log_hex, log_str, set_logging, open_log_file_for_append,
  write_line, write_at_offset, hex_lines,
}
use switch_lan_play_nx.Log.Follow.{Appends, InStep, Extends}
use switch_lan_play_nx.Log.Runs.{Event, says, dumps, switches, run, is_kept, run-initialize-Follows}
use switch_lan_play_nx.Log.Dump.{GoesWell, read_hex, read_hex-log_hex}

-- A card on which all goes well.
abbrev card : FileSystem
card = record {
  tells = true;
  creates = true;
  opens = true;
  sizes = true;
  write_file = λ k contents offset bytes.
      some (take offset contents ++ bytes ++ drop (offset + length bytes) contents);
}

-- The second write of each call fails.
abbrev full_card : FileSystem
full_card = record card {
  write_file =
      λ k contents offset bytes. if k == 1 then none else card.write_file k contents offset bytes;
}

drop_past : (n : ℕ) (s : List ℕ) → length s ≤ n → drop n s ≡ []
drop_past zero [] h = refl
drop_past zero (c ∷ s) h = absurd (omega arith)
drop_past (suc n) [] h = refl
drop_past (suc n) (c ∷ s) h = drop_past n s (omega arith)

card_appends :
    (k : ℕ) (contents bytes : List ℕ)
    → card.write_file k contents (length contents) bytes ≡ some (contents ++ bytes)
card_appends k contents bytes = ap some (
    ap₂ (λ a b. a ++ bytes ++ b) (take_all (length contents) contents (omega arith))
      (drop_past (length contents + length bytes) contents (omega arith))
    ∙ append-nil (contents ++ bytes))

card-GoesWell : GoesWell card
card-GoesWell = (refl, refl, card_appends)

card-Appends : Appends card
card-Appends k contents bytes = inr (card_appends k contents bytes)

full_card-Appends : Appends full_card
full_card-Appends k contents bytes =
    if_elim (λ o. (o ≡ none) ⊎ (o ≡ some (contents ++ bytes))) (k == 1) none
      (card.write_file k contents (length contents) bytes) (λ _. inl refl)
      (λ _. card-Appends k contents bytes)

abbrev events : List Event
events =
    says full_card (1 ∷ []) (2 ∷ 3 ∷ [])
    ∷ dumps card card (4 ∷ []) (5 ∷ []) (171 ∷ 16 ∷ [])
    ∷ switches card 0
    ∷ says card (6 ∷ []) (7 ∷ [])
    ∷ switches card 1
    ∷ []

-- The text of the line that failed is missing, and so is the line logged while switched off.
run-events :
    (run events (initialize card (at_boot (some (9 ∷ [])))).0).file
    ≡ some (9 ∷ 1 ∷ 4 ∷ 5 ∷ b'a' ∷ b'b' ∷ b'1' ∷ b'0' ∷ b'\n' ∷ [])
unfolding initialize log_hex log_str set_logging open_log_file_for_append write_line write_at_offset
    hex_lines
run-events = refl

run-initialize-Follows_example :
    let l = (initialize card (at_boot (some (9 ∷ [])))).0 in
    InStep (run events l) × (is_kept events ≡ true → Extends l.file (run events l).file)
unfolding initialize
run-initialize-Follows_example =
    run-initialize-Follows card (some (9 ∷ [])) events refl
      (full_card-Appends, (card-Appends, card-Appends, (refl, (card-Appends, (refl, tt)))))

read_hex-log_hex_example :
    let l : Log = record { enabled = true; file = some (9 ∷ []); offset = 1 } in
    (lines : List ℕ) × ((log_hex card card (1 ∷ []) (2 ∷ []) (0 ∷ 255 ∷ []) l).file
      ≡ some (9 ∷ 1 ∷ 2 ∷ lines))
    × (read_hex none lines ≡ 0 ∷ 255 ∷ [])
read_hex-log_hex_example =
    read_hex-log_hex card card (1 ∷ []) (2 ∷ []) (0 ∷ 255 ∷ []) (9 ∷ []) card-GoesWell card-GoesWell
      (refl, (refl, tt))
