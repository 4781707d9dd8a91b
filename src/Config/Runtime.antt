-- ===== src/Config/Runtime.antt =====
-- `RuntimeCfg` of source/cfg/runtime_cfg.cpp. The SD card holds two files; what it lets the code
-- do with the second one is an argument. The selected index is the pattern of an `int`.
pub mod Selection
use switch_lan_play_nx.Prelude.{
  ℕ, zero, suc, ◌+◌, ◌-◌, ◌*◌, ◌/◌, ◌%◌, ◌^◌, ◌≤◌, ◌<◌, compare, Ordering, bit_or, min, ◌≡◌, refl,
  sym, ap, ap₂, subst, ◌∙◌, ◌≡⟨◌⟩◌, ◌∎, ◌≢◌, ◌⊎◌, inl, inr, ◌↔◌, Bool, true, false, ◌&&◌, ◌||◌, not,
  Option, none, some, List, [], ◌∷◌, ◌++◌, map, append-nil, append_assoc, arith, first,
  update_first, first-passes, update_first-none, first-update_first, first-update_first_ne,
  update_first-agree, first-update_first_new, first-narrow, ltb, leb, ◌==◌, if◌then◌else◌, ltb→lt,
  lt→ltb, le→ltb, leb→le, le→leb, lt→leb, ==_iff, ==_refl, ne→==, Bool-cases, Option-cases, ◌>>=◌,
  if_true, if_false, if_elim, split_first, All, All-append, All-mono, Lacks, split_first-last,
  split_first-append, Rejoins, split_first-Rejoins, length, get_elem?, get_or, set, take, drop,
  replicate, length-append, length-set, length-take, length-drop, take-append-drop, take_all,
  take-append, drop-append, take-add, take-take, get_elem?-set_self, get_elem?-set_ne, get_elem?-lt,
  length-replicate, u8, u16, u32, add32, sub64, has_bit, be16, be32, bytes16, bytes32, be16-bytes,
  be32-bytes,
}
use switch_lan_play_nx.Config.Scan.{scan_int, decimal}
use switch_lan_play_nx.Config.Servers.{SlpNxServer, servers_parse, servers_get}

-- The bytes of `servers.conf` and of `selected.cfg`, where they can be read.
pub record Card : Type 0 where
  pub config : Option (List ℕ)
  pub selected : Option (List ℕ)

-- Whether DeleteFile, CreateFile, and OpenFile with WriteFile go well.
pub record Writing : Type 0 where
  pub deletes : Bool
  pub creates : Bool
  pub writes : Bool

-- `g_servers` with its count, and `m_sel_index`.
pub record RuntimeCfg : Type 0 where
  pub servers : List SlpNxServer
  pub sel_index : ℕ

-- -1
abbrev pub no_index : ℕ
no_index = 0xffffffff

-- A negative `int`.
abbrev pub below_zero : ℕ → Bool
below_zero i = ltb 0x7fffffff i

abbrev pub initial_cfg : RuntimeCfg
initial_cfg = record { servers = []; sel_index = no_index }

-- `ReadConfigText`: the bytes of a file that is not empty and fits `cap` with room to spare.
abbrev pub sized_text : ℕ → List ℕ → Option (List ℕ)
sized_text cap text = if ltb 0 (length text) && ltb (length text) (cap - 1) then some text else none

abbrev pub read_config_text : ℕ → Option (List ℕ) → Option (List ℕ)
read_config_text cap file = file >>= sized_text cap

abbrev pub nonnegative : ℕ → Option ℕ
nonnegative i = if below_zero i then none else some i

unfoldable pub read_persisted_selection : Card → Option ℕ
read_persisted_selection card = read_config_text 16 card.selected >>= scan_int >>= nonnegative

-- `snprintf` with "%d\n".
abbrev pub selection_text : ℕ → List ℕ
selection_text index =
    if below_zero index
    then b'-' ∷ (decimal (2 ^ 32 - index) ++ b'\n' ∷ [])
    else decimal index ++ b'\n' ∷ []

-- `CreateFile` makes a file of the text's length only where none is left.
abbrev pub created : Writing → List ℕ → Option (List ℕ) → Option (List ℕ)
created writing text (some old) = some old
created writing text none =
    if not writing.creates
    then none
    else if writing.writes
    then some text
    else some (replicate (length text) 0)

unfoldable pub persist_selection : Writing → ℕ → Card → Card
persist_selection writing index card = record card {
  selected =
      created writing (selection_text index) (if writing.deletes then none else card.selected);
}

-- The selection that is kept where no persisted one serves.
abbrev pub kept_selection : ℕ → ℕ → ℕ
kept_selection count sel =
    if below_zero sel || leb count sel then (if ltb 0 count then 0 else no_index) else sel

abbrev pub chosen_selection : ℕ → ℕ → Option ℕ → ℕ
chosen_selection count sel none = kept_selection count sel
chosen_selection count sel (some persisted) =
    if ltb persisted count then persisted else kept_selection count sel

-- After a successful `ReadConfigText`.
abbrev pub reload_text : List ℕ → Card → RuntimeCfg → RuntimeCfg × ℕ
reload_text text card cfg =
    let servers = servers_parse text in
    let count = length servers in
    (
      record {
        servers = servers;
        sel_index = chosen_selection count cfg.sel_index (read_persisted_selection card);
      },
      count,
    )

abbrev pub reload_with : Option (List ℕ) → Card → RuntimeCfg → RuntimeCfg × ℕ
reload_with none card cfg = (cfg, 0)
reload_with (some text) card cfg = reload_text text card cfg

unfoldable pub reload_servers : Card → RuntimeCfg → RuntimeCfg × ℕ
reload_servers card cfg = reload_with (read_config_text 4096 card.config) card cfg

-- `SelectServer`, which compares its `u32` as an `int`; true for 1.
unfoldable pub select_server : Writing → ℕ → RuntimeCfg → Card → RuntimeCfg × Card × Bool
select_server writing index cfg card =
    if not (below_zero index) && leb (length cfg.servers) index
    then (cfg, card, false)
    else (record cfg { sel_index = index }, persist_selection writing index card, true)

abbrev pub default_relay_host : List ℕ
default_relay_host =
    b'1' ∷ b'0' ∷ b'.' ∷ b'1' ∷ b'0' ∷ b'2' ∷ b'.' ∷ b'2' ∷ b'2' ∷ b'7' ∷ b'.' ∷ b'1' ∷ b'5' ∷ b'3'
    ∷ []

abbrev pub default_relay_port : ℕ
default_relay_port = 11451

abbrev pub host_port_of : ℕ → Option SlpNxServer → List ℕ × ℕ
host_port_of host_cap none = (take (host_cap - 1) default_relay_host, default_relay_port)
host_port_of host_cap (some s) = (take (host_cap - 1) s.host, s.port)

-- `GetSelectedHostPort`, into a buffer of `host_cap` bytes.
unfoldable pub get_selected_host_port : ℕ → RuntimeCfg → List ℕ × ℕ
get_selected_host_port host_cap cfg = host_port_of host_cap (servers_get cfg.sel_index cfg.servers)

-- `ServerCount`, `ServerName`, `ServerHost` and `ServerPort`.
abbrev server_count : RuntimeCfg → ℕ
server_count cfg = length cfg.servers

abbrev name_of : Option SlpNxServer → List ℕ
name_of none = []
name_of (some s) = s.name

abbrev host_of : Option SlpNxServer → List ℕ
host_of none = []
host_of (some s) = s.host

abbrev port_of : Option SlpNxServer → ℕ
port_of none = 0
port_of (some s) = s.port

unfoldable pub server_name : ℕ → RuntimeCfg → List ℕ
server_name index cfg = name_of (servers_get index cfg.servers)

unfoldable pub server_host : ℕ → RuntimeCfg → List ℕ
server_host index cfg = host_of (servers_get index cfg.servers)

unfoldable pub server_port : ℕ → RuntimeCfg → ℕ
server_port index cfg = port_of (servers_get index cfg.servers)
