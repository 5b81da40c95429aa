-- ===== src/Packet/Serialize/Calls.antt =====
-- The calls that `SerializePacket` makes of its writer for the headers without options fit
-- together: they return, no `assert` of the writer fails, and each object and array is closed.
use cheaproute.Prelude.{
  All, IsByte, ◌<◌, ◌^◌, true, refl, ℕ, ◌/◌, none, some, List, ◌==◌, bit_and, arith, ◌≡◌,
}
use cheaproute.Prelude.Int.{ℤ}
use cheaproute.JsonWriter.{JsonWriterMode, object_property_name}
use cheaproute.Packet.Names.{
  Name, name_at, protocol_names, icmp_type_names, icmp_unreachable_names, icmp_redirect_names,
  icmp_bad_header_names,
}
use cheaproute.Packet.Fields.{byte, u16}
use cheaproute.Packet.Traced.{IsWithin}
use cheaproute.Packet.Texts.{
  are_names, IsName, name_at-IsName, byte-small, u16-small, fragment-small,
}
use cheaproute.Packet.Moves.Fields.{byte_fits, byte-Moves, u16-Moves, address-Moves}
use cheaproute.JsonWriter.Values.{Value, named}
use cheaproute.Packet.Landing.{at, empty_object, properties}
use cheaproute.Packet.Moves.{
  Moves, ◌▹◌, done-Moves, if-Moves, text-Moves, int-Moves, open_object-Moves, close_object-Moves,
  property-Moves, pack-Moves, unpack-Moves,
}
use cheaproute.Packet.Moves.Arrays.{opened, filled, closed, done-Fills, if-Fills, string-Fills}
use cheaproute.Packet.Serialize.Headers.{
  name_or_int, friendly, write_ip_flags, write_ip_header, write_udp_header, write_icmp_code,
  has_identifier, write_icmp_rest, write_icmp_header,
}

module _ {P : Type 0} {m n : JsonWriterMode} {st : List JsonWriterMode} {p : ℤ}
    (v : Value m n) where
  name_or_int-Moves :
      (value : ℕ) (name : Name)
      → IsWithin v
      → (P → value < 2 ^ 63)
      → IsName name
      → Moves P (at m st p) (at n st p) (name_or_int value name)
  unfolding name_or_int
  name_or_int-Moves value none i f c = int-Moves v value i f
  name_or_int-Moves value (some str) i f c = text-Moves v str (λ q. c)

  friendly-Moves :
      (names : List Name) (value : ℕ)
      → are_names names ≡ true
      → IsWithin v
      → (P → value < 2 ^ 63)
      → Moves P (at m st p) (at n st p) (friendly names value)
  unfolding friendly
  friendly-Moves names value c i f =
      name_or_int-Moves value (name_at names value) i f (name_at-IsName names value c)

  write_icmp_code-Moves :
      (type code : ℕ)
      → IsWithin v
      → (P → code < 2 ^ 63)
      → Moves P (at m st p) (at n st p) (write_icmp_code type code)
  unfolding write_icmp_code
  write_icmp_code-Moves type code i f =
      if-Moves (type == 3) (friendly-Moves icmp_unreachable_names code refl i f) (
        if-Moves (type == 5) (friendly-Moves icmp_redirect_names code refl i f) (
          if-Moves (type == 12) (friendly-Moves icmp_bad_header_names code refl i f)
            (int-Moves v code i f)))

  write_ip_flags-Moves : (flags : ℕ) → Moves P (at m st p) (at n st p) (write_ip_flags flags)
  unfolding write_ip_flags
  write_ip_flags-Moves flags = closed (
      filled
        (filled (opened v)
          (if-Fills (bit_and flags 0x4000 == 0) done-Fills (string-Fills "DF" refl)))
        (if-Fills (bit_and flags 0x2000 == 0) done-Fills (string-Fills "MF" refl)))

  pub write_udp_header-Moves :
      (h : List ℕ) → (P → All IsByte h) → Moves P (at m st p) (at n st p) (write_udp_header h)
  unfolding write_udp_header
  write_udp_header-Moves h b =
      open_object-Moves v
      ▹ property-Moves empty_object "sourcePort" refl
      ▹ u16-Moves h 0 b
      ▹ property-Moves properties "destPort" refl
      ▹ u16-Moves h 2 b
      ▹ close_object-Moves properties

write_icmp_rest-Moves :
    {P : Type 0} {st : List JsonWriterMode} {p : ℤ} (h : List ℕ)
    → (P → All IsByte h)
    → Moves P (at object_property_name st p) (at object_property_name st p) (write_icmp_rest h)
unfolding write_icmp_rest
write_icmp_rest-Moves h b =
    if-Moves (has_identifier (byte h 0))
      (property-Moves properties "identifier" refl
        ▹ pack-Moves
        ▹ u16-Moves h 4 b
        ▹ property-Moves properties "sequenceNumber" refl
        ▹ u16-Moves h 6 b
        ▹ unpack-Moves)
      (if-Moves (byte h 0 == 3) (property-Moves properties "nextHopMtu" refl ▹ u16-Moves h 6 b) (
        if-Moves (byte h 0 == 5) (property-Moves properties "gateway" refl ▹ address-Moves h 4 b)
          done-Moves))

module _ {P : Type 0} {m n : JsonWriterMode} {st : List JsonWriterMode} {p : ℤ}
    (v : Value m n) where
  pub write_icmp_header-Moves :
      (h : List ℕ) → (P → All IsByte h) → Moves P (at m st p) (at n st p) (write_icmp_header h)
  unfolding write_icmp_header
  write_icmp_header-Moves h b =
      open_object-Moves v
      ▹ property-Moves empty_object "type" refl
      ▹ pack-Moves
      ▹ friendly-Moves named icmp_type_names (byte h 0) refl tt (byte_fits h 0 b)
      ▹ property-Moves properties "code" refl
      ▹ write_icmp_code-Moves named (byte h 0) (byte h 1) tt (byte_fits h 1 b)
      ▹ unpack-Moves
      ▹ write_icmp_rest-Moves h b
      ▹ close_object-Moves properties

  pub write_ip_header-Moves :
      (h : List ℕ) → (P → All IsByte h) → Moves P (at m st p) (at n st p) (write_ip_header h)
  unfolding write_ip_header
  write_ip_header-Moves h b =
      open_object-Moves v
      ▹ property-Moves empty_object "version" refl
      ▹ pack-Moves
      ▹ int-Moves named (byte h 0 / 16) tt (λ q. omega (arith, byte-small h 0 (b q)))
      ▹ property-Moves properties "tos" refl
      ▹ byte-Moves h 1 b
      ▹ property-Moves properties "id" refl
      ▹ u16-Moves h 4 b
      ▹ property-Moves properties "flags" refl
      ▹ write_ip_flags-Moves named (u16 h 6)
      ▹ unpack-Moves
      ▹ property-Moves properties "fragmentOffset" refl
      ▹ pack-Moves
      ▹ int-Moves named (bit_and (u16 h 6) 0x1fff) tt
          (λ q. omega (arith, fragment-small (u16 h 6) (u16-small h 6 (b q))))
      ▹ property-Moves properties "ttl" refl
      ▹ byte-Moves h 8 b
      ▹ property-Moves properties "protocol" refl
      ▹ friendly-Moves named protocol_names (byte h 9) refl tt (byte_fits h 9 b)
      ▹ unpack-Moves
      ▹ property-Moves properties "source" refl
      ▹ pack-Moves
      ▹ address-Moves h 12 b
      ▹ property-Moves properties "destination" refl
      ▹ address-Moves h 16 b
      ▹ unpack-Moves
      ▹ close_object-Moves properties
