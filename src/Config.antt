-- ===== src/Config.antt =====
-- The server list, the selected server and the configuration service (source/cfg).
pub mod Scan
pub mod Servers
pub mod Runtime
pub mod Service
mod Tests
