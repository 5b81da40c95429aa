-- ===== src/Packet.antt =====
-- net/json_packet.cc: packets as JSON.
pub mod Names
pub mod Texts
pub mod Traced
pub mod Fields
pub mod Checksum
pub mod Writing
pub mod Landing
pub mod Moves
pub mod Serialize
pub mod Deserialize
pub mod RoundTrip
