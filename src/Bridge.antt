-- ===== src/Bridge.antt =====
-- `BsdBridgeService` of source/bsd/bsd_bridge_service.cpp and its header: the bsd:u mitm service.
pub mod DummySkip
pub mod VTcp
pub mod World
pub mod Lifecycle
pub mod Drain
pub mod Service
pub mod TrackedFds
pub mod ControlQueue
