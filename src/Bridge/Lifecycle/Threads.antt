-- ===== src/Bridge/Lifecycle/Threads.antt =====
-- The threads behind the relay, whichever way it is switched.
use switch_lan_play_nx.Prelude.{
  ℕ, ◌≤◌, ◌≡◌, refl, sym, ◌∙◌, Bool, true, false, ◌&&◌, not, List, [], ◌∷◌, arith, if◌then◌else◌,
  if_elim,
}
use switch_lan_play_nx.Relay.Connect.{is_connected, connect, close}
use switch_lan_play_nx.Bridge.World.{
  World, Outside, initial_background, with_socket_stack, ensure_socket_stack,
  ensure_watchdog_started, ensure_drain_thread_started,
}
use switch_lan_play_nx.Bridge.Lifecycle.{
  connect_relay_locked, ensure_relay_connected, force_reconnect, stop, start, watchdog,
}

-- What happens to the relay of a world, by its users, the overlay and the clock.
pub data Event : Type 0 where
  wants_relay wants_nifm rests starts reconnects : Outside → Event
  stops : Event

abbrev pub happen : World → Event → World
happen w (wants_relay o) = (ensure_relay_connected o w).0
happen w (wants_nifm o) = with_socket_stack o w
happen w (rests o) = watchdog o w
happen w (starts o) = start o w
happen w (reconnects o) = force_reconnect o w
happen w stops = stop w

abbrev pub happen_all : World → List Event → World
happen_all w [] = w
happen_all w (event ∷ events) = happen_all (happen w event) events

-- `CreateThread` succeeds.
abbrev pub creates : Outside → Bool
creates o = o.network.creates_pump && (o.creates_watchdog && o.creates_drain)

abbrev Creates : Event → Type 0
Creates (wants_relay o) = creates o ≡ true
Creates (wants_nifm o) = Unit {0}
Creates (rests o) = Unit {0}
Creates (starts o) = creates o ≡ true
Creates (reconnects o) = creates o ≡ true
Creates stops = Unit {0}

abbrev AllCreate : List Event → Type 0
AllCreate [] = Unit {0}
AllCreate (event ∷ events) = Creates event × AllCreate events

abbrev once : Bool → ℕ
once started = if started then 1 else 0

-- The pump runs exactly while the relay is connected, the watchdog and the drain each once since
-- they were first wanted, which is before the relay was first connected.
abbrev pub Runs : World → Type 0
Runs w =
    (w.relay.pump_started ≡ is_connected w.relay)
    × (w.background.watchdog_runs ≡ once w.background.watchdog_started)
    × (w.background.drain_runs ≡ once w.background.watchdog_started)
    × (w.background.drain_thread_started ≡ w.background.watchdog_started)
    × (is_connected w.relay ≡ true → w.background.watchdog_started ≡ true)

connect_relay_locked-Runs :
    (o : Outside) (w : World)
    → creates o ≡ true
    → is_connected w.relay ≡ false
    → Runs w
    → Runs (connect_relay_locked o w).0
unfolding connect_relay_locked connect ensure_socket_stack ensure_watchdog_started
    ensure_drain_thread_started
connect_relay_locked-Runs o w works off runs = ground arith

happen-Runs : (w : World) (event : Event) → Creates event → Runs w → Runs (happen w event)
unfolding ensure_relay_connected start watchdog force_reconnect stop ensure_socket_stack close
happen-Runs w (wants_relay o) works runs =
    if_elim {A = World × Bool} (λ p. Runs p.0) (not w.relay_enabled) _ _ (λ _. runs)
      (λ _.
        if_elim {A = World × Bool} (λ p. Runs p.0) (is_connected w.relay) _ _ (λ _. runs)
          (λ off.
            if_elim {A = World × Bool} (λ p. Runs p.0) w.relay_connect_attempted _ _ (λ _. runs)
              (λ _. connect_relay_locked-Runs o w works off runs)))
happen-Runs w (wants_nifm o) works runs = ground arith
happen-Runs w (rests o) works runs = ground arith
happen-Runs w (starts o) works runs =
    let fresh : World = record w { relay_enabled = true; relay_connect_attempted = false } in
    if_elim Runs (not (is_connected w.relay)) _ _
      (λ off. connect_relay_locked-Runs o fresh works (ground arith) runs) (λ _. runs)
happen-Runs w (reconnects o) works runs =
    connect_relay_locked-Runs o (record (stop w) { relay_enabled = true }) works refl
      (refl, runs.1, runs.2, runs.3, λ connected. absurd (ground arith))
happen-Runs w stops works runs = ground arith

happen_all-Runs :
    (w : World) (events : List Event) → AllCreate events → Runs w → Runs (happen_all w events)
happen_all-Runs w [] works runs = runs
happen_all-Runs w (event ∷ events) works runs =
    happen_all-Runs (happen w event) events works.1 (happen-Runs w event works.0 runs)

Runs-once :
    (v : World)
    → Runs v
    → (v.relay.pump_started ≡ is_connected v.relay)
      × (v.background.drain_runs ≡ v.background.watchdog_runs)
      × (v.background.watchdog_runs ≤ 1)
      × (is_connected v.relay ≡ true → v.background.watchdog_runs ≡ 1)
Runs-once v runs = ground arith

-- A world at the start: the relay is not connected and nothing runs. Whatever uses of the relay
-- and of nifm, rounds of the watchdog, Start, Stop and ForceReconnect follow, in any order and
-- with any network, if `CreateThread` succeeds whenever it is called: the pump runs exactly while
-- the relay is connected, the watchdog and the drain were started equally often and once at most,
-- and they were started if the relay is connected.
pub happen_all-background :
    (w : World) (events : List Event)
    → is_connected w.relay ≡ false
    → w.relay.pump_started ≡ false
    → w.background ≡ initial_background
    → AllCreate events
    → let v = happen_all w events in
      (v.relay.pump_started ≡ is_connected v.relay)
      × (v.background.drain_runs ≡ v.background.watchdog_runs)
      × (v.background.watchdog_runs ≤ 1)
      × (is_connected v.relay ≡ true → v.background.watchdog_runs ≡ 1)
happen_all-background w events off idle fresh works =
    let start_runs : Runs w =
      rw fresh (idle ∙ sym off, refl, refl, refl, λ connected. absurd (ground arith)) in
    Runs-once (happen_all w events) (happen_all-Runs w events works start_runs)
