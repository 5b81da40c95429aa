-- ===== src/Packet/RoundTrip.antt =====
-- net/json_packet.cc: what `SerializePacket` writes of a packet, `DeserializePacket` reads back.
pub mod Says
pub mod HeaderCalls
pub mod DataCalls
pub mod PacketCalls
pub mod Yields
pub mod Reading
pub mod Flags
pub mod HeaderReading
pub mod Lines
pub mod DataReading
pub mod Blanked
pub mod Udp
pub mod Document
pub mod Again
pub mod Verified
