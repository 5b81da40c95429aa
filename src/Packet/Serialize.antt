-- ===== src/Packet/Serialize.antt =====
-- net/json_packet.cc: `SerializePacket`, from an IPv4 packet's bytes to JSON.
pub mod Bytes
pub mod Headers
pub mod Tcp
pub mod Calls
pub mod DataCalls
pub mod Options
pub mod Whole
pub mod Opens
use cheaproute.Prelude.{
  ℕ, ◌+◌, ◌-◌, ◌*◌, ◌%◌, Bool, true, false, ◌&&◌, List, ◌==◌, leb, ltb, if◌then◌else◌, length, drop,
}
use cheaproute.Packet.Fields.{byte}
use cheaproute.Packet.Writing.{
  Action, Outcome, ◌>>◌, and_then, done, property, open_object, close_object, outcome,
}
use Bytes.{write_bytes}
use Headers.{
  write_ip_header, ip_header_size, write_udp_header, write_icmp_header, icmp_header_size,
  udp_header_size,
}
use Tcp.{write_tcp_header, tcp_header_size}

-- The header behind the IP header, and the size that its writer returns; 0 if there is none.
unfoldable pub write_transport : ℕ → List ℕ → Action
unfolding write_tcp_header write_udp_header write_icmp_header
write_transport offset packet =
    if byte packet 9 == 6 && leb (offset + 20) (length packet)
    then property "tcp" >> write_tcp_header (drop offset packet) (length packet - offset)
    else if byte packet 9 == 17 && leb (offset + 8) (length packet)
    then property "udp" >> write_udp_header (drop offset packet)
    else if byte packet 9 == 1 && leb (offset + 8) (length packet)
    then property "icmp" >> write_icmp_header (drop offset packet)
    else done

unfoldable pub transport_size : ℕ → List ℕ → ℕ
unfolding tcp_header_size
transport_size offset packet =
    if byte packet 9 == 6 && leb (offset + 20) (length packet)
    then tcp_header_size (drop offset packet)
    else if byte packet 9 == 17 && leb (offset + 8) (length packet)
    then udp_header_size
    else if byte packet 9 == 1 && leb (offset + 8) (length packet)
    then icmp_header_size
    else 0

unfoldable pub write_data : ℕ → List ℕ → Action
unfolding write_bytes
write_data offset packet =
    if ltb offset (length packet) then property "data" >> write_bytes (drop offset packet) else done

unfoldable pub write_headers : List ℕ → Action
unfolding write_ip_header write_transport write_data transport_size ip_header_size
write_headers packet =
    let offset = ip_header_size packet in
    property "ip"
    >> write_ip_header packet
    >> write_transport offset packet
    >> write_data (offset + transport_size offset packet) packet

-- `SerializePacket`
unfoldable pub serialize_packet : List ℕ → Action
unfolding write_headers byte
serialize_packet packet =
    open_object
    >> (if leb 20 (length packet) && leb 5 (byte packet 0 % 16) then write_headers packet else done)
    >> close_object
