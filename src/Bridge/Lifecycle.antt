-- ===== src/Bridge/Lifecycle.antt =====
-- When the relay is dialled and dropped (source/bsd/bsd_bridge_service.cpp): `EnsureRelayConnected`,
-- `ConnectRelayLocked`, `ForceReconnect`, `Start`, `Stop` and the watchdog.
pub mod Switch
pub mod Threads
use switch_lan_play_nx.Prelude.{
  ℕ, zero, suc, ◌+◌, ◌-◌, ◌*◌, ◌/◌, ◌%◌, ◌^◌, ◌≤◌, ◌<◌, compare, Ordering, bit_or, min, ◌≡◌, refl,
  sym, ap, ap₂, subst, ◌∙◌, ◌≡⟨◌⟩◌, ◌∎, ◌≢◌, ◌⊎◌, inl, inr, ◌↔◌, Bool, true, false, ◌&&◌, ◌||◌, not,
  Option, none, some, List, [], ◌∷◌, ◌++◌, map, append-nil, append_assoc, arith, first,
  update_first, first-passes, update_first-none, first-update_first, first-update_first_ne,
  update_first-agree, ltb, leb, ◌==◌, if◌then◌else◌, ltb→lt, lt→ltb, le→ltb, leb→le, le→leb, lt→leb,
  ==_iff, ==_refl, ne→==, Bool-cases, Option-cases, if_true, if_false, if_elim, length, get_elem?,
  get_or, set, take, drop, replicate, length-append, length-set, length-take, length-drop,
  take-append-drop, take_all, take-append, drop-append, take-add, take-take, get_elem?-set_self,
  get_elem?-set_ne, get_elem?-lt, length-replicate, u8, u16, u32, add32, sub64, has_bit, be16, be32,
  bytes16, bytes32, be16-bytes, be32-bytes,
}
use switch_lan_play_nx.Relay.Connect.{is_connected, connect, close}
use switch_lan_play_nx.Bridge.World.{
  World, Outside, Background, ensure_socket_stack, ensure_watchdog_started,
  ensure_drain_thread_started,
}

abbrev begun : Outside → Background → Background
begun o b = ensure_drain_thread_started o (ensure_watchdog_started o (ensure_socket_stack o b))

unfoldable pub connect_relay_locked : Outside → World → World × Bool
connect_relay_locked o w =
    let (relay, ok) = connect o.network o.selected.0 o.selected.1 o.tick w.relay in
    (
      record w { relay = relay; relay_connect_attempted = true; background = begun o w.background },
      ok,
    )

unfoldable pub ensure_relay_connected : Outside → World → World × Bool
ensure_relay_connected o w =
    if not w.relay_enabled
    then (w, false)
    else if is_connected w.relay
    then (w, true)
    else if w.relay_connect_attempted
    then (w, false)
    else connect_relay_locked o w

unfoldable pub force_reconnect : Outside → World → World
force_reconnect o w =
    let dropped : World = record w {
      relay_enabled = true;
      relay = close w.relay;
      relay_connect_attempted = false;
      last_bridge_activity_ms = 0;
    } in
    (connect_relay_locked o dropped).0

unfoldable pub stop : World → World
stop w = record w {
  relay_enabled = false;
  relay = close w.relay;
  relay_connect_attempted = false;
  last_bridge_activity_ms = 0;
}

unfoldable pub start : Outside → World → World
start o w =
    let enabled : World = record w { relay_enabled = true } in
    if not (is_connected w.relay)
    then (connect_relay_locked o (record enabled { relay_connect_attempted = false })).0
    else enabled

abbrev watchdog_idle_timeout_ms : ℕ
watchdog_idle_timeout_ms = 10 * 60 * 1000

-- One round of `WatchdogThreadMain`.
unfoldable pub watchdog : Outside → World → World
watchdog o w =
    let dropped : World = record w {
      relay = close w.relay;
      relay_connect_attempted = false;
      last_bridged_local_ip = 0;
      bridged_socket_count = 0;
      last_bridge_activity_ms = 0;
    } in
    if not (is_connected w.relay)
    then w
    else if w.last_bridge_activity_ms == 0
    then w
    else if ltb (sub64 o.now_ms w.last_bridge_activity_ms) watchdog_idle_timeout_ms
    then w
    else dropped
