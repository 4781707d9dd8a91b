-- ===== src/Relay.antt =====
-- `RelayBridge` of source/relay_bridge.hpp, the raw IPv4 over UDP transport to the relay.
pub mod Fragment
pub mod Reassembly
pub mod Queue
pub mod Pump
pub mod Connect
pub mod Dns
mod Tests
