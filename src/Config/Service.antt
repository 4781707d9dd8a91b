-- ===== src/Config/Service.antt =====
-- The commands of `ConfigService` (source/cfg/cfg_service.cpp), which the overlay sends. A number
-- is written to its buffer whole; a text is what the buffer of the given size then starts with.
pub mod Dial
use switch_lan_play_nx.Prelude.{
  ℕ, zero, suc, ◌+◌, ◌-◌, ◌*◌, ◌/◌, ◌%◌, ◌^◌, ◌≤◌, ◌<◌, compare, Ordering, bit_or, min, ◌≡◌, refl,
  sym, ap, ap₂, subst, ◌∙◌, ◌≡⟨◌⟩◌, ◌∎, ◌≢◌, ◌⊎◌, inl, inr, ◌↔◌, Bool, true, false, ◌&&◌, ◌||◌, not,
  Option, none, some, List, [], ◌∷◌, ◌++◌, map, append-nil, append_assoc, arith, first,
  update_first, first-passes, update_first-none, first-update_first, first-update_first_ne,
  update_first-agree, first-update_first_new, first-narrow, ltb, leb, ◌==◌, if◌then◌else◌, ltb→lt,
  lt→ltb, le→ltb, leb→le, le→leb, lt→leb, ==_iff, ==_refl, ne→==, Bool-cases, Option-cases, ◌>>=◌,
  if_true, if_false, if_elim, split_first, All, All-append, All-mono, Lacks, split_first-last,
  split_first-append, Rejoins, split_first-Rejoins, length, get_elem?, get_or, set, take, drop,
  replicate, length-append, length-set, length-take, length-drop, take-append-drop, take_all,
  take-append, drop-append, take-add, take-take, get_elem?-set_self, get_elem?-set_ne, get_elem?-lt,
  length-replicate, u8, u16, u32, add32, sub64, has_bit, be16, be32, bytes16, bytes32, be16-bytes,
  be32-bytes,
}
use switch_lan_play_nx.Relay.Connect.{is_connected}
use switch_lan_play_nx.Bridge.World.{with_socket_stack, World, Outside}
use switch_lan_play_nx.Bridge.Lifecycle.{force_reconnect, start, stop}
use switch_lan_play_nx.Config.Scan.{decimal}
use switch_lan_play_nx.Config.Runtime.{
  Card, Writing, RuntimeCfg, reload_servers, select_server, get_selected_host_port,
}

-- A text in an array of `cap` bytes, the rest of them zero.
abbrev zero_padded : ℕ → List ℕ → List ℕ
zero_padded cap s = let cut = take (cap - 1) s in cut ++ replicate (cap - length cut) 0

-- `copy_str`: what goes to a buffer of `size` bytes.
abbrev copy_str : ℕ → List ℕ → List ℕ
copy_str size s = take (min size 128) (zero_padded 128 s)

-- `inet_ntoa` of an address in host order.
abbrev dotted_quad : ℕ → List ℕ
dotted_quad ip =
    decimal (u8 (ip / 2 ^ 24))
    ++ b'.'
      ∷ (decimal (u8 (ip / 2 ^ 16)) ++ b'.' ∷ (decimal (u8 (ip / 2 ^ 8)) ++ b'.' ∷ decimal (u8 ip)))

unfoldable pub ip_to_str : ℕ → ℕ → List ℕ
ip_to_str ip out_cap = if ip == 0 then [] else take (out_cap - 1) (dotted_quad ip)

-- "0.1.0"
abbrev version : List ℕ
version = b'0' ∷ b'.' ∷ b'1' ∷ b'.' ∷ b'0' ∷ []

unfoldable pub get_version : ℕ → List ℕ
get_version size = take (min size 32) (zero_padded 32 version)

-- `GetRealIp`
abbrev real_ip_of : Option ℕ → ℕ
real_ip_of none = 0
real_ip_of (some ip) = ip

-- The outputs of `GetState`.
pub record State : Type 0 where
  pub connected : Bool
  pub enabled : Bool
  pub sel_index : ℕ
  pub host : List ℕ
  pub port : ℕ
  pub local_ip : List ℕ
  pub real_ip : List ℕ

-- The sizes of the three text buffers of `GetState`.
pub record Sizes : Type 0 where
  pub host : ℕ
  pub local_ip : ℕ
  pub real_ip : ℕ

unfoldable pub get_state : Sizes → Outside → RuntimeCfg → World → State
get_state sizes o cfg w =
    let (host, port) = get_selected_host_port 16 cfg in
    record {
      connected = is_connected w.relay;
      enabled = w.relay_enabled;
      sel_index = cfg.sel_index;
      host = copy_str sizes.host host;
      port = port;
      local_ip = copy_str sizes.local_ip (ip_to_str w.last_bridged_local_ip 16);
      real_ip = copy_str sizes.real_ip (ip_to_str (real_ip_of o.nifm_ip) 16);
    }

-- What the commands work on: the configuration, the card and the bridge.
pub record System : Type 0 where
  pub cfg : RuntimeCfg
  pub card : Card
  pub bridge : World

pub data Command : Type 0 where
  ask_version : ℕ → Command
  ask_state : Sizes → Command
  ask_select : Writing → ℕ → Command
  ask_reload ask_reconnect ask_start ask_stop : Command

-- What a command hands back: `R_SUCCEED()` with its outputs, or the failure of SelectServer.
pub data Outcome : Type 0 where
  succeeded : Outcome
  version_is : List ℕ → Outcome
  state_is : State → Outcome
  invalid_request_size : Outcome

unfoldable pub handle : Outside → Command → System → System × Outcome
handle o (ask_version size) s = (s, version_is (get_version size))
handle o (ask_state sizes) s = (
  record s { bridge = with_socket_stack o s.bridge },
  state_is (get_state sizes o s.cfg s.bridge),
)
handle o (ask_select writing index) s =
    let (cfg, card, done) = select_server writing index s.cfg s.card in
    (record s { cfg = cfg; card = card }, if done then succeeded else invalid_request_size)
handle o ask_reload s = (record s { cfg = (reload_servers s.card s.cfg).0 }, succeeded)
handle o ask_reconnect s = (record s { bridge = force_reconnect o s.bridge }, succeeded)
handle o ask_start s = (record s { bridge = start o s.bridge }, succeeded)
handle o ask_stop s = (record s { bridge = stop s.bridge }, succeeded)
