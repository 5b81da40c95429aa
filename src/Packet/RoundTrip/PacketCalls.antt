-- ===== src/Packet/RoundTrip/PacketCalls.antt =====
-- net/json_packet.cc: the calls that `SerializePacket` makes for a UDP packet.
use cheaproute.Packet.Names.{protocol_names, name_at}
use cheaproute.Prelude.{
  ℕ, suc, [], bit_and, ◌==◌, ◌≤◌, ◌<◌, ◌≡◌, refl, sym, subst, Bool, true, false, List, ◌∷◌, All,
  IsByte, arith, ascii, ltb, le→leb, length, drop, if◌then◌else◌,
}
use cheaproute.Prelude.Int.{ℤ}
use cheaproute.JsonWriter.{JsonWriterMode, object_property_name}
use cheaproute.JsonWriter.Values.{Value, named}
use cheaproute.JsonRoundTrip.Calls.{opens_object, closes_object, name, Call, closes_array}
use cheaproute.Packet.Fields.{byte, u16}
use cheaproute.Packet.Texts.{All-drop}
use cheaproute.Packet.Landing.{at, empty_object, properties}
use cheaproute.Packet.Writing.{Action, ◌>>◌, done, property, open_object, close_object}
use cheaproute.Packet.Serialize.{
  write_transport, transport_size, write_data, write_headers, serialize_packet,
}
use cheaproute.Packet.Serialize.Bytes.{is_plain_text, write_bytes}
use cheaproute.Packet.Serialize.Headers.{ip_header_size, write_ip_header, write_udp_header}
use cheaproute.Packet.RoundTrip.Says.{
  Front, Says, ◌▸◌, done-Says, open_object-Says, close_object-Says, property-Says,
}
use cheaproute.Packet.RoundTrip.HeaderCalls.{
  flag_call, name_call, ip_tail, ip_calls, udp_calls, write_ip_header-Says, write_udp_header-Says,
}
use cheaproute.Packet.RoundTrip.DataCalls.{
  all_texts, text_lines_of, hex_lines_of, data_calls, bytes_calls, write_bytes-Says,
}

-- A UDP packet behind an IPv4 header without options and without the reserved flag.
pub record IsUdp (packet : List ℕ) : Type 0 where
  pub bytes : All IsByte packet
  pub long : 28 ≤ length packet
  pub version : byte packet 0 ≡ 0x45
  pub protocol : byte packet 9 ≡ 17
  pub flags : u16 packet 6 < 32768

abbrev pub data_part : List ℕ → Front
data_part packet rest =
    if ltb 28 (length packet) then name (ascii "data") ∷ bytes_calls (drop 28 packet) rest else rest

abbrev pub behind_ip : List ℕ → Front
behind_ip packet rest =
    name (ascii "udp") ∷ udp_calls (drop 20 packet) (data_part packet (closes_object ∷ rest))

abbrev pub packet_calls : List ℕ → Front
packet_calls packet rest =
    opens_object ∷ name (ascii "ip") ∷ ip_calls packet (behind_ip packet rest)

-- What `SerializePacket` does for such a packet.
abbrev udp_action : List ℕ → Action
udp_action packet =
    open_object
    >> (property "ip"
        >> write_ip_header packet
        >> (property "udp" >> write_udp_header (drop 20 packet))
        >> write_data 28 packet)
    >> close_object

serialize_packet-udp :
    (packet : List ℕ) → IsUdp packet → serialize_packet packet ≡ udp_action packet
unfolding serialize_packet write_headers write_transport transport_size ip_header_size
serialize_packet-udp packet u =
    rw
      (
        u.version,
        u.protocol,
        le→leb 20 (length packet) (omega (arith, u.long)),
        le→leb 28 (length packet) u.long,
      )
      refl

module _ {P : Type 0} {st : List JsonWriterMode} {p : ℤ} where
  data-Says :
      (packet : List ℕ) (c : Bool)
      → (P → All IsByte packet)
      → Says P
          (λ r. if c then name (ascii "data") ∷ bytes_calls (drop 28 packet) r else r)
          (at object_property_name st p)
          (at object_property_name st p)
          (if c then property "data" >> write_bytes (drop 28 packet) else done)
  data-Says packet true b =
      property-Says properties "data" refl
      ▸ write_bytes-Says named (drop 28 packet) (λ q. All-drop IsByte 28 packet (b q))
  data-Says packet false b = done-Says

module _ {P : Type 0} {m n : JsonWriterMode} {st : List JsonWriterMode} {p : ℤ}
    (v : Value m n) where
  udp_action-Says :
      (packet : List ℕ)
      → (P → All IsByte packet)
      → Says P (packet_calls packet) (at m st p) (at n st p) (udp_action packet)
  unfolding write_data
  udp_action-Says packet b =
      open_object-Says v
      ▸ (property-Says empty_object "ip" refl
          ▸ write_ip_header-Says named packet b
          ▸ (property-Says properties "udp" refl
              ▸ write_udp_header-Says named (drop 20 packet) (λ q. All-drop IsByte 20 packet (b q)))
          ▸ data-Says packet (ltb 28 (length packet)) b)
      ▸ close_object-Says properties

  -- For a UDP packet `SerializePacket` makes the calls `packet_calls`, and a reader can read their text.
  pub serialize_packet-Says :
      (packet : List ℕ)
      → IsUdp packet
      → Says P (packet_calls packet) (at m st p) (at n st p) (serialize_packet packet)
  serialize_packet-Says packet u =
      subst (Says P (packet_calls packet) (at m st p) (at n st p))
        (sym (serialize_packet-udp packet u)) (udp_action-Says packet (λ _. u.bytes))

-- A packet has a call at least.
flag-longer :
    (absent : Bool) (str : List ℕ) (rest : List Call)
    → length rest ≤ length (flag_call absent str rest)
flag-longer true str rest = omega arith
flag-longer false str rest = omega arith

texts-longer :
    (strs : List (List ℕ)) (rest : List Call) → length rest ≤ length (all_texts strs rest)
texts-longer [] rest = omega arith
texts-longer (str ∷ strs) rest = omega (arith, texts-longer strs rest)

data-longer :
    (bytes : List ℕ) (some_data plain : Bool) (rest : List Call)
    → length rest
      ≤ length (
          if some_data
          then name (ascii "data")
            ∷ (if plain
                  then data_calls (ascii "text") (text_lines_of [] bytes)
                  else data_calls (ascii "hex") (hex_lines_of (length bytes) bytes))
                rest
          else rest)
data-longer bytes true true rest =
    omega (arith, texts-longer (text_lines_of [] bytes) (closes_array ∷ closes_object ∷ rest))
data-longer bytes true false rest =
    omega (
      arith,
      texts-longer (hex_lines_of (length bytes) bytes) (closes_array ∷ closes_object ∷ rest),
    )
data-longer bytes false plain rest = omega arith

flags-longer :
    (df mf : Bool) (rest : List Call)
    → length rest ≤ length (flag_call df (ascii "DF") (flag_call mf (ascii "MF") rest))
flags-longer df mf rest = omega (
  arith,
  flag-longer df (ascii "DF") (flag_call mf (ascii "MF") rest),
  flag-longer mf (ascii "MF") rest,
)

pub packet_calls-longer :
    (packet : List ℕ) (rest : List Call) → suc (length rest) ≤ length (packet_calls packet rest)
packet_calls-longer packet rest = omega (
  arith,
  flags-longer (bit_and (u16 packet 6) 0x4000 == 0) (bit_and (u16 packet 6) 0x2000 == 0) (
      ip_tail (name_call (byte packet 9) (name_at protocol_names (byte packet 9))) packet
        (behind_ip packet rest)),
  data-longer (drop 28 packet) (ltb 28 (length packet)) (is_plain_text (drop 28 packet))
      (closes_object ∷ rest),
)
