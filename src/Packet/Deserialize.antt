-- ===== src/Packet/Deserialize.antt =====
-- net/json_packet.cc: `DeserializePacket`.
pub mod Parsing
pub mod Tables
pub mod Expect
pub mod Headers
pub mod Tcp
pub mod Completion
pub mod Whole
pub mod Returning
pub mod Taking
pub mod Parts
pub mod HeaderParts
pub mod TcpParts
pub mod WholeParts
pub mod Termination
pub mod Front
pub mod Received
pub mod NamesBack
