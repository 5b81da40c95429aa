-- ===== src/Packet/RoundTrip/HeaderReading.antt =====
-- net/json_packet.cc: the IP and UDP headers that `SerializePacket` wrote, read back.
use cheaproute.Prelude.{
  ℕ, ◌+◌, ◌/◌, ◌<◌, ◌≡◌, refl, ap, some, List, [], ◌∷◌, ◌++◌, All, IsByte, arith, ascii, ◌==◌,
  ne→==_false, bit_and,
}
use cheaproute.JsonRoundTrip.Calls.{Call, opens_object, closes_object, text}
use cheaproute.JsonRoundTrip.Escapes.{IsChar}
use cheaproute.Packet.Names.{protocol_names}
use cheaproute.Packet.Fields.{byte, u16, ip4_text}
use cheaproute.Packet.Texts.{byte-small, u16-small, ip4_text-All}
use cheaproute.Packet.Deserialize.Parsing.{Platform}
use cheaproute.Packet.Deserialize.Tables.{c_str, lookup_name}
use cheaproute.Packet.Deserialize.Headers.{
  be16, address_or_error, parse_address, expect_ip4_value, Ip4Header, ip4_bytes,
  deserialize_ip4_header, deserialize_udp_header,
}
use cheaproute.Packet.RoundTrip.Says.{one}
use cheaproute.Packet.RoundTrip.HeaderCalls.{ip_calls_with, udp_calls}
use cheaproute.Packet.RoundTrip.Yields.{seen-str}
use cheaproute.Packet.RoundTrip.Reading.{
  Gives, ◌▸◌, chain, emit-Gives, prefixed-Gives, current-Gives, looks, expect_next_token-Gives,
  expect_next_name-Gives, expect_enum_property-Gives, next_property-Gives, next_property_in-Gives,
}
use cheaproute.Packet.RoundTrip.Flags.{fragment_of, offset-small, deserialize_flags-Gives}

-- The four bytes of an address in a packet.
abbrev pub address_at : List ℕ → ℕ → List ℕ
address_at h i = byte h i ∷ byte h (i + 1) ∷ byte h (i + 2) ∷ byte h (i + 3) ∷ []

-- `inet_pton` reads the dotted decimal form of an address in a packet.
abbrev pub ReadsAddress : Platform → List ℕ → ℕ → Type 0
ReadsAddress env h i = env.inet_pton (ip4_text h i) ≡ some (address_at h i)

pub c_str-All : (str : List ℕ) → All IsChar str → c_str str ≡ str
unfolding c_str
c_str-All [] h = refl
c_str-All (ch ∷ str) h =
    rw (ne→==_false ch 0 (omega (arith, h.0.0))) (ap (λ t. ch ∷ t) (c_str-All str h.1))

-- The fields that are read of a header.
abbrev pub header_of : List ℕ → Ip4Header
header_of h = record {
  tos = byte h 1;
  id = u16 h 4;
  fragment = fragment_of (u16 h 6);
  ttl = byte h 8;
  protocol = byte h 9;
  source = address_at h 12;
  destination = address_at h 16;
}

module _ {env : Platform} where
  expect_ip4_value-Gives :
      {now : Call} (h : List ℕ) (i : ℕ)
      → ReadsAddress env h i
      → All IsByte h
      → Gives env now
          (one (text (ip4_text h i)))
          (text (ip4_text h i))
          expect_ip4_value
          (address_at h i)
          []
  unfolding expect_ip4_value parse_address address_or_error
  expect_ip4_value-Gives h i a b =
      expect_next_token-Gives (text (ip4_text h i))
      ▸ current-Gives (λ r. parse_address r.str_value)
          (λ r d. looks (λ s _.
            rw
              (seen-str r (text (ip4_text h i)) d, c_str-All (ip4_text h i) (ip4_text-All h i b), a)
              refl))

  pub deserialize_udp_header-Gives :
      {now : Call} (h : List ℕ)
      → All IsByte h
      → Gives env now
          (udp_calls h)
          closes_object
          deserialize_udp_header
          tt
          (be16 (u16 h 0) ++ (be16 (u16 h 2) ++ (0 ∷ 0 ∷ 0 ∷ 0 ∷ [])))
  unfolding deserialize_udp_header
  deserialize_udp_header-Gives h b =
      expect_next_token-Gives opens_object
      ▸ chain _ (next_property-Gives "sourcePort" 65535 (u16 h 0) (omega (arith, u16-small h 0 b)))
          (chain _ (next_property-Gives "destPort" 65535 (u16 h 2) (omega (arith, u16-small h 2 b)))
            (expect_next_token-Gives closes_object
              ▸ emit-Gives (be16 (u16 h 0) ++ (be16 (u16 h 2) ++ (0 ∷ 0 ∷ 0 ∷ 0 ∷ [])))))

  pub deserialize_ip4_header-Gives :
      {now : Call} (h : List ℕ) (protocol : List ℕ)
      → ReadsAddress env h 12
      → ReadsAddress env h 16
      → All IsByte h
      → byte h 0 / 16 ≡ 4
      → u16 h 6 < 32768
      → lookup_name protocol_names protocol ≡ some (byte h 9)
      → Gives env now
          (ip_calls_with (text protocol) h)
          closes_object
          deserialize_ip4_header
          tt
          (ip4_bytes (byte h 0 / 16) (header_of h))
  unfolding deserialize_ip4_header
  deserialize_ip4_header-Gives h protocol a c b v small e =
      expect_next_token-Gives opens_object
      ▸ chain _ (next_property_in-Gives "version" 4 4 (byte h 0 / 16) (omega arith) (omega arith)) (
          chain _
            (next_property_in-Gives "tos" 0 255 (byte h 1) (omega arith)
              (omega (arith, byte-small h 1 b)))
            (chain _ (next_property-Gives "id" 65535 (u16 h 4) (omega (arith, u16-small h 4 b))) (
              expect_next_name-Gives "flags"
              ▸ chain _
                  (prefixed-Gives (ascii "While reading property 'flags' in ip header") (
                    deserialize_flags-Gives (bit_and (u16 h 6) 0x4000 == 0)
                      (bit_and (u16 h 6) 0x2000 == 0)))
                  (chain _
                    (next_property_in-Gives "fragmentOffset" 0 8191 (bit_and (u16 h 6) 0x1fff)
                      (omega arith) (offset-small (u16 h 6) small))
                    (chain _
                      (next_property-Gives "ttl" 255 (byte h 8) (omega (arith, byte-small h 8 b)))
                      (chain _
                        (expect_enum_property-Gives "protocol" (lookup_name protocol_names) protocol
                          (byte h 9) e)
                        (expect_next_name-Gives "source"
                          ▸ chain _
                              (prefixed-Gives (ascii "In property 'source'")
                                (expect_ip4_value-Gives h 12 a b))
                              (expect_next_name-Gives "destination"
                                ▸ chain _
                                    (prefixed-Gives (ascii "In property 'destination'")
                                      (expect_ip4_value-Gives h 16 c b))
                                    (prefixed-Gives (ascii "While reading IP header")
                                        (expect_next_token-Gives closes_object)
                                      ▸ emit-Gives
                                          (ip4_bytes (byte h 0 / 16) (header_of h)))))))))))
