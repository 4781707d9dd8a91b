-- ===== src/Bridge/Service.antt =====
-- The bsd:u commands of `BsdBridgeService` (source/bsd/bsd_bridge_service.cpp).
pub mod Forward
pub mod Plain
pub mod Send
pub mod Receive
pub mod Sockets
pub mod Accept
pub mod Dial
pub mod Poll
pub mod Select
pub mod Isolation
pub mod Datagram
pub mod Handshake
pub mod Balance
pub mod Valid
mod Tests
