-- ===== src/Packet/RoundTrip/HeaderCalls.antt =====
-- net/json_packet.cc: the calls that `WriteIpHeader` and `WriteUdpHeader` make.
use cheaproute.Prelude.{
  ℕ, ◌/◌, ◌<◌, ◌^◌, ◌≡◌, refl, Bool, true, false, none, some, List, ◌∷◌, All, IsByte, arith, ascii,
  ◌==◌, bit_and, if◌then◌else◌,
}
use cheaproute.Prelude.Int.{ℤ, pos}
use cheaproute.JsonWriter.{JsonWriterMode}
use cheaproute.JsonWriter.Values.{Value, named}
use cheaproute.JsonRoundTrip.Calls.{
  Call, opens_array, closes_array, opens_object, closes_object, name, text, number,
}
use cheaproute.Packet.Names.{Name, name_at, protocol_names}
use cheaproute.Packet.Fields.{byte, u16, ip4_text}
use cheaproute.Packet.Texts.{
  are_names, IsName, name_at-IsName, byte-small, u16-small, fragment-small, ip4_text-All,
}
use cheaproute.Packet.Traced.{IsWithin}
use cheaproute.Packet.Landing.{at, empty_object, properties}
use cheaproute.Packet.Moves.Fields.{byte_fits, u16_fits}
use cheaproute.Packet.Writing.{done, string}
use cheaproute.Packet.Serialize.Headers.{
  name_or_int, friendly, write_ip_flags, write_ip_header, write_udp_header,
}
use cheaproute.Packet.RoundTrip.Says.{
  Front, one, Says, ◌▸◌, text-Says, string-Says, int-Says, open_array-Says, open_object-Says,
  close_object-Says, property-Says, pack-Says, unpack-Says, SaysItems, item-Says, no_items,
  filled-Says, opened-Says, closed-Says,
}

abbrev pub name_call : ℕ → Name → Call
name_call value none = number (pos value)
name_call value (some str) = text str

abbrev pub flag_call : Bool → List ℕ → Front
flag_call absent str rest = if absent then rest else text str ∷ rest

abbrev pub flag_calls : ℕ → Front
flag_calls flags rest =
    flag_call (bit_and flags 0x4000 == 0) (ascii "DF")
      (flag_call (bit_and flags 0x2000 == 0) (ascii "MF") rest)

-- The IP header behind its flags, `protocol` being the value of the property of that name.
abbrev pub ip_tail : Call → List ℕ → Front
ip_tail protocol h rest =
    closes_array
    ∷ name (ascii "fragmentOffset")
    ∷ number (pos (bit_and (u16 h 6) 0x1fff))
    ∷ name (ascii "ttl")
    ∷ number (pos (byte h 8))
    ∷ name (ascii "protocol")
    ∷ protocol
    ∷ name (ascii "source")
    ∷ text (ip4_text h 12)
    ∷ name (ascii "destination")
    ∷ text (ip4_text h 16)
    ∷ closes_object
    ∷ rest

abbrev pub ip_calls_with : Call → List ℕ → Front
ip_calls_with protocol h rest =
    opens_object
    ∷ name (ascii "version")
    ∷ number (pos (byte h 0 / 16))
    ∷ name (ascii "tos")
    ∷ number (pos (byte h 1))
    ∷ name (ascii "id")
    ∷ number (pos (u16 h 4))
    ∷ name (ascii "flags")
    ∷ opens_array
    ∷ flag_calls (u16 h 6) (ip_tail protocol h rest)

abbrev pub ip_calls : List ℕ → Front
ip_calls h = ip_calls_with (name_call (byte h 9) (name_at protocol_names (byte h 9))) h

abbrev pub udp_calls : List ℕ → Front
udp_calls h rest =
    opens_object
    ∷ name (ascii "sourcePort")
    ∷ number (pos (u16 h 0))
    ∷ name (ascii "destPort")
    ∷ number (pos (u16 h 2))
    ∷ closes_object
    ∷ rest

flag_items :
    {P : Type 0} {st : List JsonWriterMode} {p : ℤ} (absent : Bool)
    → SaysItems P (flag_call absent (ascii "DF")) st p (if absent then done else string "DF")
      × SaysItems P (flag_call absent (ascii "MF")) st p (if absent then done else string "MF")
flag_items true = (no_items, no_items)
flag_items false =
    (item-Says (λ m v. string-Says v "DF" refl), item-Says (λ m v. string-Says v "MF" refl))

module _ {P : Type 0} {m n : JsonWriterMode} {st : List JsonWriterMode} {p : ℤ}
    (v : Value m n) where
  name_or_int-Says :
      (value : ℕ) (entry : Name)
      → IsWithin v
      → (P → value < 2 ^ 63)
      → IsName entry
      → Says P (one (name_call value entry)) (at m st p) (at n st p) (name_or_int value entry)
  unfolding name_or_int
  name_or_int-Says value none i f c = int-Says v value i f
  name_or_int-Says value (some str) i f c = text-Says v str (λ q. c)

  friendly-Says :
      (names : List Name) (value : ℕ)
      → are_names names ≡ true
      → IsWithin v
      → (P → value < 2 ^ 63)
      → Says P
          (one (name_call value (name_at names value)))
          (at m st p)
          (at n st p)
          (friendly names value)
  unfolding friendly
  friendly-Says names value c i f =
      name_or_int-Says value (name_at names value) i f (name_at-IsName names value c)

  write_ip_flags-Says :
      (flags : ℕ)
      → Says P
          (λ r. opens_array ∷ flag_calls flags (closes_array ∷ r))
          (at m st p)
          (at n st p)
          (write_ip_flags flags)
  unfolding write_ip_flags
  write_ip_flags-Says flags = closed-Says (
      filled-Says
        (filled-Says (opened-Says (open_array-Says v)) (flag_items (bit_and flags 0x4000 == 0)).0)
        (flag_items (bit_and flags 0x2000 == 0)).1)

module _ {P : Type 0} {m n : JsonWriterMode} {st : List JsonWriterMode} {p : ℤ}
    (v : Value m n) where
  pub write_udp_header-Says :
      (h : List ℕ)
      → (P → All IsByte h)
      → Says P (udp_calls h) (at m st p) (at n st p) (write_udp_header h)
  unfolding write_udp_header
  write_udp_header-Says h b =
      open_object-Says v
      ▸ property-Says empty_object "sourcePort" refl
      ▸ int-Says named (u16 h 0) tt (u16_fits h 0 b)
      ▸ property-Says properties "destPort" refl
      ▸ int-Says named (u16 h 2) tt (u16_fits h 2 b)
      ▸ close_object-Says properties

  pub write_ip_header-Says :
      (h : List ℕ)
      → (P → All IsByte h)
      → Says P (ip_calls h) (at m st p) (at n st p) (write_ip_header h)
  unfolding write_ip_header
  write_ip_header-Says h b =
      open_object-Says v
      ▸ property-Says empty_object "version" refl
      ▸ pack-Says
      ▸ int-Says named (byte h 0 / 16) tt (λ q. omega (arith, byte-small h 0 (b q)))
      ▸ property-Says properties "tos" refl
      ▸ int-Says named (byte h 1) tt (byte_fits h 1 b)
      ▸ property-Says properties "id" refl
      ▸ int-Says named (u16 h 4) tt (u16_fits h 4 b)
      ▸ property-Says properties "flags" refl
      ▸ write_ip_flags-Says named (u16 h 6)
      ▸ unpack-Says
      ▸ property-Says properties "fragmentOffset" refl
      ▸ pack-Says
      ▸ int-Says named (bit_and (u16 h 6) 0x1fff) tt
          (λ q. omega (arith, fragment-small (u16 h 6) (u16-small h 6 (b q))))
      ▸ property-Says properties "ttl" refl
      ▸ int-Says named (byte h 8) tt (byte_fits h 8 b)
      ▸ property-Says properties "protocol" refl
      ▸ friendly-Says named protocol_names (byte h 9) refl tt (byte_fits h 9 b)
      ▸ unpack-Says
      ▸ property-Says properties "source" refl
      ▸ pack-Says
      ▸ text-Says named (ip4_text h 12) (λ q. ip4_text-All h 12 (b q))
      ▸ property-Says properties "destination" refl
      ▸ text-Says named (ip4_text h 16) (λ q. ip4_text-All h 16 (b q))
      ▸ unpack-Says
      ▸ close_object-Says properties
