-- ===== src/Packet/Serialize/Headers.antt =====
-- net/json_packet.cc: the IP, UDP and ICMP headers as JSON. A header is the packet from its first
-- byte on.
use cheaproute.Prelude.{
  ℕ, ◌*◌, ◌/◌, ◌%◌, Bool, ◌||◌, none, some, List, ◌==◌, if◌then◌else◌, bit_and,
}
use cheaproute.Packet.Names.{
  Name, name_at, protocol_names, icmp_type_names, icmp_unreachable_names, icmp_redirect_names,
  icmp_bad_header_names,
}
use cheaproute.Packet.Fields.{byte, u16, ip4_text}
use cheaproute.Packet.Writing.{
  Action, ◌>>◌, done, property, string, text, int, open_array, close_array, open_object,
  close_object, pack, unpack,
}

unfoldable pub name_or_int : ℕ → Name → Action
name_or_int value none = int value
name_or_int value (some str) = text str

-- `WriteFriendlyStringOrInt`
unfoldable pub friendly : List Name → ℕ → Action
unfolding name_or_int name_at
friendly names value = name_or_int value (name_at names value)

-- `WriteIpFlags`
unfoldable pub write_ip_flags : ℕ → Action
write_ip_flags flags =
    open_array
    >> (if bit_and flags 0x4000 == 0 then done else string "DF")
    >> (if bit_and flags 0x2000 == 0 then done else string "MF")
    >> close_array

-- `WriteIpHeader`, and the size that it returns.
unfoldable pub write_ip_header : List ℕ → Action
unfolding write_ip_flags friendly byte u16 ip4_text
write_ip_header h =
    open_object
    >> property "version"
    >> pack
    >> int (byte h 0 / 16)
    >> property "tos"
    >> int (byte h 1)
    >> property "id"
    >> int (u16 h 4)
    >> property "flags"
    >> write_ip_flags (u16 h 6)
    >> unpack
    >> property "fragmentOffset"
    >> pack
    >> int (bit_and (u16 h 6) 0x1fff)
    >> property "ttl"
    >> int (byte h 8)
    >> property "protocol"
    >> friendly protocol_names (byte h 9)
    >> unpack
    >> property "source"
    >> pack
    >> text (ip4_text h 12)
    >> property "destination"
    >> text (ip4_text h 16)
    >> unpack
    >> close_object

unfoldable pub ip_header_size : List ℕ → ℕ
unfolding byte
ip_header_size h = byte h 0 % 16 * 4

-- `WriteUdpHeader`; it returns the size of a pointer, 8 as that of the header.
unfoldable pub write_udp_header : List ℕ → Action
unfolding u16
write_udp_header h =
    open_object
    >> property "sourcePort"
    >> int (u16 h 0)
    >> property "destPort"
    >> int (u16 h 2)
    >> close_object

abbrev pub udp_header_size : ℕ
udp_header_size = 8

-- `WriteIcmpCode`
unfoldable pub write_icmp_code : ℕ → ℕ → Action
unfolding friendly
write_icmp_code type code =
    if type == 3
    then friendly icmp_unreachable_names code
    else if type == 5
    then friendly icmp_redirect_names code
    else if type == 12
    then friendly icmp_bad_header_names code
    else int code

-- The types whose header holds an identifier and a sequence number: echo, timestamp and address
-- mask, with their replies.
unfoldable pub has_identifier : ℕ → Bool
has_identifier type =
    type == 8 || (type == 0 || (type == 13 || (type == 14 || (type == 17 || type == 18))))

-- What follows the code, by the type.
unfoldable pub write_icmp_rest : List ℕ → Action
unfolding has_identifier u16 ip4_text byte
write_icmp_rest h =
    if has_identifier (byte h 0)
    then property "identifier"
      >> pack
      >> int (u16 h 4)
      >> property "sequenceNumber"
      >> int (u16 h 6)
      >> unpack
    else if byte h 0 == 3
    then property "nextHopMtu" >> int (u16 h 6)
    else if byte h 0 == 5
    then property "gateway" >> text (ip4_text h 4)
    else done

-- `WriteIcmpHeader`
unfoldable pub write_icmp_header : List ℕ → Action
unfolding friendly write_icmp_code write_icmp_rest byte
write_icmp_header h =
    open_object
    >> property "type"
    >> pack
    >> friendly icmp_type_names (byte h 0)
    >> property "code"
    >> write_icmp_code (byte h 0) (byte h 1)
    >> unpack
    >> write_icmp_rest h
    >> close_object

abbrev pub icmp_header_size : ℕ
icmp_header_size = 8
