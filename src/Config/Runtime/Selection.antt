-- ===== src/Config/Runtime/Selection.antt =====
-- The selected server: that it stands in the list, and that it outlives a restart.
use switch_lan_play_nx.Prelude.{
  ℕ, zero, suc, ◌-◌, ◌^◌, ◌≤◌, ◌<◌, ◌≡◌, refl, sym, ap, ◌∙◌, ◌⊎◌, inl, inr, Bool, true, false, ◌&&◌,
  ◌||◌, not, Option, none, some, List, [], ◌∷◌, ◌++◌, arith, ltb, leb, ◌==◌, lt→ltb, Bool-cases,
  ◌>>=◌, if_true, if_false, if_elim, length, get_elem?, length-append, take_all,
}
use switch_lan_play_nx.Config.Scan.{scan_int, decimal}
use switch_lan_play_nx.Config.Scan.Numbers.{decimal-IsWord, scan_int-decimal}
use switch_lan_play_nx.Config.Servers.{SlpNxServer, max_servers, host_max, servers_parse}
use switch_lan_play_nx.Config.Servers.Valid.{IsServer, AreServers, servers_parse-AreServers}
use switch_lan_play_nx.Config.Runtime.{
  Card, Writing, RuntimeCfg, no_index, below_zero, sized_text, read_config_text, nonnegative,
  read_persisted_selection, selection_text, persist_selection, kept_selection, chosen_selection,
  reload_text, reload_with, reload_servers, select_server, default_relay_host, default_relay_port,
  host_port_of, get_selected_host_port,
}

-- The index of none, or of an entry.
abbrev is_selection : ℕ → ℕ → Bool
is_selection count sel = sel == no_index || ltb sel count

pub record IsValid (cfg : RuntimeCfg) : Type 0 where
  pub few : length cfg.servers ≤ max_servers
  pub valid : AreServers cfg.servers
  pub selection : is_selection (length cfg.servers) cfg.sel_index ≡ true

chosen-is_selection :
    (count sel : ℕ) (persisted : Option ℕ)
    → count ≤ max_servers
    → is_selection count (chosen_selection count sel persisted) ≡ true
chosen-is_selection count sel none few = ground arith
chosen-is_selection count sel (some i) few = ground arith

reload_text-IsValid :
    (text : List ℕ) (card : Card) (cfg : RuntimeCfg) → IsValid (reload_text text card cfg).0
reload_text-IsValid text card cfg =
    let (few, valid) = servers_parse-AreServers text in
    record {
      few = few;
      valid = valid;
      selection =
          chosen-is_selection (length (servers_parse text)) cfg.sel_index
            (read_persisted_selection card) few;
    }

reload_with-IsValid :
    (text : Option (List ℕ)) (card : Card) (cfg : RuntimeCfg)
    → IsValid cfg
    → IsValid (reload_with text card cfg).0
reload_with-IsValid none card cfg v = v
reload_with-IsValid (some text) card cfg v = reload_text-IsValid text card cfg

select_server-IsValid :
    (writing : Writing) (index : ℕ) (cfg : RuntimeCfg) (card : Card)
    → index < 2 ^ 31
    → IsValid cfg
    → IsValid (select_server writing index cfg card).0
unfolding select_server
select_server-IsValid writing index cfg card h v =
    if_elim (λ (r : RuntimeCfg × Card × Bool). IsValid r.0)
      (not (below_zero index) && leb (length cfg.servers) index) (cfg, card, false) _ (λ _. v)
      (λ inside. record { few = v.few; valid = v.valid; selection = ground arith })

-- What the overlay or the start of the system asks for, each with the card as it is then.
pub data Use : Type 0 where
  reload : Card → Use
  select : Writing → ℕ → Card → Use

abbrev pub run : List Use → RuntimeCfg → RuntimeCfg
run [] cfg = cfg
run (reload card ∷ uses) cfg = run uses (reload_servers card cfg).0
run (select writing index card ∷ uses) cfg = run uses (select_server writing index cfg card).0

-- The indices selected are no negative numbers as an `int`.
abbrev InRange : List Use → Type 0
InRange [] = Unit {0}
InRange (reload card ∷ uses) = InRange uses
InRange (select writing index card ∷ uses) = (index < 2 ^ 31) × InRange uses

run-kept :
    (uses : List Use) (cfg : RuntimeCfg) → InRange uses → IsValid cfg → IsValid (run uses cfg)
unfolding reload_servers
run-kept [] cfg h v = v
run-kept (reload card ∷ uses) cfg h v =
    run-kept uses (reload_servers card cfg).0 h
      (reload_with-IsValid (read_config_text 4096 card.config) card cfg v)
run-kept (select writing index card ∷ uses) cfg h v =
    run-kept uses (select_server writing index cfg card).0 h.1
      (select_server-IsValid writing index cfg card h.0 v)

-- The host and port to connect to: the default ones with no selection, else those of an entry.
abbrev pub Connects : RuntimeCfg → Type 0
Connects cfg =
    ((cfg.sel_index ≡ no_index)
      × (get_selected_host_port host_max cfg ≡ (default_relay_host, default_relay_port)))
    ⊎ ((s : SlpNxServer) × (get_elem? cfg.servers cfg.sel_index ≡ some s)
        × IsServer s
        × (get_selected_host_port host_max cfg ≡ (s.host, s.port)))

entry-IsServer :
    (servers : List SlpNxServer) (i : ℕ)
    → AreServers servers
    → i < length servers
    → (s : SlpNxServer) × (get_elem? servers i ≡ some s) × IsServer s
entry-IsServer [] i v h = absurd (omega arith)
entry-IsServer (s ∷ servers) zero v h = (s, refl, v.0)
entry-IsServer (s ∷ servers) (suc i) v h = entry-IsServer servers i v.1 (omega arith)

IsValid-Connects : (cfg : RuntimeCfg) → IsValid cfg → Connects cfg
unfolding get_selected_host_port
IsValid-Connects cfg v = elim (Bool-cases (cfg.sel_index == no_index)) [
  | inl unselected ↦ inl (
    ground arith,
    ap (host_port_of host_max) (
        if_true (ltb 0x7fffffff cfg.sel_index) none (get_elem? cfg.servers cfg.sel_index)
          (ground arith)),
  )
  | inr selected ↦
      let (s, found, valid) =
        entry-IsServer cfg.servers cfg.sel_index v.valid (ground (arith, v.selection)) in
      inr (
        s,
        found,
        valid,
        ap (host_port_of host_max) (
              if_false (ltb 0x7fffffff cfg.sel_index) none (get_elem? cfg.servers cfg.sel_index)
                (ground (arith, v.selection, v.few))
              ∙ found)
            ∙ ap (λ host. (host, s.port)) (take_all (host_max - 1) s.host (omega (arith, valid.1))),
      )
]

-- From the start, whatever lists are loaded and entries selected (with indices below 2^31), in any
-- order and with any contents of the two files at each time: the list has at most ten entries, all
-- valid; the selected index is -1 or that of an entry; and the host and port to connect to are the
-- default ones in the first case and exactly those of the entry in the second.
pub run-IsValid-Connects :
    (uses : List Use) (cfg : RuntimeCfg)
    → InRange uses
    → IsValid cfg
    → IsValid (run uses cfg) × Connects (run uses cfg)
run-IsValid-Connects uses cfg h v =
    (run-kept uses cfg h v, IsValid-Connects (run uses cfg) (run-kept uses cfg h v))

abbrev pub all_well : Writing
all_well = record { deletes = true; creates = true; writes = true }

-- The text of an index of the list is read back as that index.
persisted_again :
    (index : ℕ) (card : Card)
    → index < max_servers
    → read_persisted_selection (persist_selection all_well index card) ≡ some index
unfolding read_persisted_selection persist_selection
persisted_again index card h =
    let text : List ℕ = decimal index ++ b'\n' ∷ [] in
    let plain : selection_text index ≡ text =
      if_false (below_zero index) (b'-' ∷ (decimal (2 ^ 32 - index) ++ b'\n' ∷ [])) text
        (ground arith) in
    let word = (decimal-IsWord index (omega arith)).0 in
    let total = length-append (decimal index) (b'\n' ∷ []) in
    let fits : sized_text 16 text ≡ some text =
      if_true (ltb 0 (length text) && ltb (length text) (16 - 1)) (some text) none
        (ground (arith, total, word.1)) in
    ap (λ t. sized_text 16 t >>= scan_int >>= nonnegative) plain
    ∙ ap (λ o. o >>= scan_int >>= nonnegative) fits
    ∙ ap (λ o. o >>= nonnegative) (scan_int-decimal index (omega arith))
    ∙ if_false (below_zero index) none (some index) (ground arith)

abbrev loaded_cfg : List SlpNxServer → ℕ → RuntimeCfg
loaded_cfg servers index = record { servers = servers; sel_index = index }

-- A card whose `servers.conf` is read as `text`, and the list of this text loaded: SelectServer of an
-- entry, on a card that takes the writes, succeeds, and after a restart in any state ReloadServers
-- on the card that it left finds the same list with the same entry selected.
pub reload_servers-select_server :
    (text : List ℕ) (index : ℕ) (cfg later : RuntimeCfg) (card : Card)
    → read_config_text 4096 card.config ≡ some text
    → cfg.servers ≡ servers_parse text
    → index < length (servers_parse text)
    → let (selected, card', done) = select_server all_well index cfg card in
      (done ≡ true)
      × (selected.sel_index ≡ index)
      × (selected.servers ≡ servers_parse text)
      × (reload_servers card' later ≡ (selected, length (servers_parse text)))
unfolding select_server reload_servers persist_selection
reload_servers-select_server text index cfg later card read loaded inside =
    let count = length (servers_parse text) in
    let card' = persist_selection all_well index card in
    let few = (servers_parse-AreServers text).0 in
    let longer = ap length loaded in
    let chosen : chosen_selection count later.sel_index (read_persisted_selection card') ≡ index =
      ap (chosen_selection count later.sel_index) (persisted_again index card (omega arith))
      ∙ if_true (ltb index count) index (kept_selection count later.sel_index)
          (lt→ltb index count inside) in
    if_elim
      (λ (r : RuntimeCfg × Card × Bool).
        (r.2 ≡ true)
        × (r.0.sel_index ≡ index)
        × (r.0.servers ≡ servers_parse text)
        × (reload_servers r.1 later ≡ (r.0, count)))
      (not (below_zero index) && leb (length cfg.servers) index) (cfg, card, false)
      (loaded_cfg cfg.servers index, card', true) (λ refused. absurd (ground arith))
      (λ taken. (
        refl,
        refl,
        loaded,
        ap (λ t. reload_with t card' later) read
            ∙ ap (λ i. (loaded_cfg (servers_parse text) i, count)) chosen
            ∙ ap (λ servers. (loaded_cfg servers index, count)) (sym loaded),
      ))
