-- ===== src/Tests.antt =====
-- Runs on concrete inputs, and the theorems at inputs that meet their hypotheses.
mod Json
mod Documents
mod Running
mod Streams
mod HexText
mod Packets
mod PacketText
mod RoundTrips
mod Listeners
mod Network
