-- ===== src/Packet.antt =====
-- source/bsd/bsd_bridge_service.cpp: the raw IPv4 packets that the bridge builds and takes apart.
-- A byte array is a list of its bytes; a read past its end, which the guards rule out, gives 0.
pub mod Checksum
pub mod Udp
pub mod Tcp
mod Tests
