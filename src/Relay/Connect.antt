-- ===== src/Relay/Connect.antt =====
-- `Connect` and `Close` of `RelayBridge` (source/relay_bridge.hpp). What `::socket` and the
-- resolution of the host give is an argument.
use switch_lan_play_nx.Prelude.{ℕ, Bool, true, false, Option, none, some, List, if◌then◌else◌}
use switch_lan_play_nx.Relay.Queue.{clear_queue}
use switch_lan_play_nx.Relay.Pump.{RelayBridge}

pub record Network : Type 0 where
  pub socket_opens : Bool
  -- `CreateThread` succeeds for the pump.
  pub creates_pump : Bool
  -- `inet_pton`, or else `ResolveHostname`.
  pub resolve : List ℕ → Option ℕ

abbrev pub is_connected : RelayBridge → Bool
is_connected b = b.sender.connected

abbrev start_pump : Bool → RelayBridge → RelayBridge
start_pump creates b = record b {
  pump_stop = if b.pump_started then b.pump_stop else false;
  pump_started = if b.pump_started then true else creates;
}

abbrev stop_pump : RelayBridge → RelayBridge
stop_pump b = record b {
  pump_stop = if b.pump_started then true else b.pump_stop;
  pump_started = false;
}

abbrev pub with_address : Bool → ℕ → RelayBridge → Option ℕ → RelayBridge × Bool
with_address creates now b none = (b, false)
with_address creates now b (some ip) =
    let connected : RelayBridge = record b {
      sender = record b.sender { connected = true };
      last_keepalive_tick = now;
      relay_addr = (ip, b.relay_addr.1);
    } in
    (start_pump creates connected, true)

-- `Connect` at tick `now`; true for `ResultSuccess()`.
unfoldable pub connect : Network → List ℕ → ℕ → ℕ → RelayBridge → RelayBridge × Bool
connect network host port now b =
    if network.socket_opens
    then with_address network.creates_pump now (record b { relay_addr = (b.relay_addr.0, port) })
        (network.resolve host)
    else (b, false)

unfoldable pub close : RelayBridge → RelayBridge
close b =
    let stopped = stop_pump b in
    record stopped {
      sender = record stopped.sender { connected = false };
      queue = clear_queue stopped.queue;
    }
