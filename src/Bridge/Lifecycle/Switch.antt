-- ===== src/Bridge/Lifecycle/Switch.antt =====
-- The on/off switch, and one dial at most per reason to dial.
use switch_lan_play_nx.Prelude.{◌≡◌, refl, true, false, ◌&&◌, ◌||◌, List, [], ◌∷◌, arith}
use switch_lan_play_nx.Relay.Connect.{is_connected, connect, close}
use switch_lan_play_nx.Bridge.World.{World, Outside}
use switch_lan_play_nx.Bridge.Lifecycle.{
  connect_relay_locked, ensure_relay_connected, force_reconnect, stop, start, watchdog,
}

-- EnsureRelayConnected, from any state: true means enabled and connected; and a second call, on
-- whatever network it meets then, gives the same answer and changes nothing.
pub ensure_relay_connected-again :
    (o later : Outside) (w : World)
    → let (w', ok) = ensure_relay_connected o w in
      (ok ≡ (w'.relay_enabled && is_connected w'.relay))
      × (ensure_relay_connected later w' ≡ (w', ok))
unfolding ensure_relay_connected connect_relay_locked connect
ensure_relay_connected-again o later w = ground arith

-- What can happen to the relay of a world without anybody pressing a button.
pub data Event : Type 0 where
  uses_relay idles : Outside → Event

unfoldable pub happen : World → Event → World
happen w (uses_relay o) = (ensure_relay_connected o w).0
happen w (idles o) = watchdog o w

unfoldable pub run : World → List Event → World
run w [] = w
run w (event ∷ events) = run (happen w event) events

abbrev Off : World → Type 0
Off w = (w.relay_enabled ≡ false) × (is_connected w.relay ≡ false)

happen-Off : (w : World) (event : Event) → Off w → Off (happen w event)
unfolding happen ensure_relay_connected watchdog
happen-Off w (uses_relay o) off = ground arith
happen-Off w (idles o) off = ground arith

stop-Off : (w : World) → Off (stop w)
unfolding stop close
stop-Off w = (refl, refl)

-- After Stop, whatever uses of the relay and rounds of the watchdog follow, and whatever network
-- they meet: the relay stays disabled and unconnected.
pub run-stop :
    (w : World) (events : List Event)
    → ((run (stop w) events).relay_enabled ≡ false)
      × (is_connected (run (stop w) events).relay ≡ false)
unfolding run
run-stop w events = go (stop w) events (stop-Off w)
  where
    go : (v : World) (more : List Event) → Off v → Off (run v more)
    go v [] off = off
    go v (event ∷ more) off = go (happen v event) more (happen-Off v event off)

-- Start and ForceReconnect, from any state: the relay is enabled after either. Start leaves it
-- connected exactly if it was before or the network lets it dial, ForceReconnect exactly if the
-- network lets it dial.
start-force_reconnect :
    (o : Outside) (w : World)
    → let dials = (connect o.network o.selected.0 o.selected.1 o.tick w.relay).1 in
      ((start o w).relay_enabled ≡ true)
      × (is_connected (start o w).relay ≡ (is_connected w.relay || dials))
      × ((force_reconnect o w).relay_enabled ≡ true)
      × (is_connected (force_reconnect o w).relay ≡ dials)
unfolding start force_reconnect connect_relay_locked connect close
start-force_reconnect o w = ground arith
