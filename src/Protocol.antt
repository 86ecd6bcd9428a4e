-- ===== src/Protocol.antt =====
-- protocol/protocol.go: the fixed-size packet of the UDP and TCP protocol.
pub mod Words
pub mod Text
pub mod Pad
pub mod Command
pub mod Packet
