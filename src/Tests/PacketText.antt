-- ===== src/Tests/PacketText.antt =====
-- net/json_packet.cc: packets written as JSON and read back.
use cheaproute.Prelude.{
  true, ℕ, ◌≡◌, ◌≢◌, refl, subst, ap, arith, Option, false, none, some, List, [], ◌∷◌, ◌++◌, ascii,
  All, IsByte, length,
}
use cheaproute.JsonReader.Text.{read_quoted}
use cheaproute.JsonReader.Number.{
  scan_number, first_round, scan_char, scan_digit, number_loop, push, strtoll, clamp_positive,
  digits_value,
}
use cheaproute.JsonWriter.{
  new_writer, begin_object, write_property_name, write_integer, begin_pack, begin_array,
  write_string, end_array, end_pack, end_object,
}
use cheaproute.JsonWriter.Text.{digits}
use cheaproute.Packet.Serialize.{serialize_packet}
use cheaproute.Packet.Writing.{wrote, assert_failed, out_of_fuel}
use cheaproute.JsonReader.{new_reader, next}
use cheaproute.JsonReader.Values.{IsNested}
use cheaproute.Packet.Names.{protocol_names, name_at}
use cheaproute.Packet.Deserialize.Parsing.{Platform, Parsing, ok}
use cheaproute.Packet.Deserialize.Parsing
use cheaproute.Packet.Deserialize.Tables.{lookup_name}
use cheaproute.Packet.Deserialize.Whole.{deserialize_packet}
use cheaproute.Packet.Deserialize.Returning.{GivesAddresses}
use cheaproute.Packet.Deserialize.Termination.{deserialize_packet-Returns}
use cheaproute.Packet.Deserialize.Received.{Verifies, deserialize_packet-Verifies}
use cheaproute.Packet.Deserialize.NamesBack.{protocols, lookup_name-name_at}

-- `inet_pton` of the one address of the packets.
abbrev pub platform : Platform
platform = record {
  strtod_overflows = λ text. false;
  inet_pton = λ text. some (10 ∷ 0 ∷ 0 ∷ 1 ∷ []);
}

pub platform-GivesAddresses : GivesAddresses platform
platform-GivesAddresses str address h = given address h
  where
    get_some : Option (List ℕ) → List ℕ
    get_some none = []
    get_some (some a) = a

    given : (a : List ℕ) → some (10 ∷ 0 ∷ 0 ∷ 1 ∷ []) ≡ some a → (length a ≡ 4) × All IsByte a
    given a e =
        subst (λ b. (length b ≡ 4) × All IsByte b) (ap get_some e)
          (refl, (omega arith, (omega arith, (omega arith, (omega arith, tt)))))

-- A UDP packet with one line of text.
abbrev pub text : List ℕ
text =
    ascii "{'ip':{'version':4,'tos':0,'id':1,'flags':['DF'],'fragmentOffset':0,'ttl':64,"
    ++ (ascii "'protocol':'UDP','source':'10.0.0.1','destination':'10.0.0.1'},"
        ++ ascii "'udp':{'sourcePort':80,'destPort':256},'data':{'type':'text','data':['AB']}}")

printed : List ℕ → List ℕ
unfolding serialize_packet new_writer
printed packet = elim (serialize_packet packet (new_writer true)) [
  | wrote w ↦ w.out
  | assert_failed ↦ []
  | out_of_fuel ↦ []
]

abbrev pub udp_packet : List ℕ
udp_packet =
    0x45 ∷ 0 ∷ 0 ∷ 30 ∷ 0 ∷ 1 ∷ 0x40 ∷ 0 ∷ 64 ∷ 17 ∷ 38 ∷ 205 ∷ 10 ∷ 0 ∷ 0 ∷ 1 ∷ 10 ∷ 0 ∷ 0 ∷ 1 ∷ 0
    ∷ 80 ∷ 1 ∷ 0 ∷ 0 ∷ 10 ∷ 169 ∷ 70 ∷ 65 ∷ 66 ∷ []

-- The reader at its first token.
abbrev started : Parsing
started = record { reader = (next (λ t. false) (new_reader text)).1; dest = [] }

read_udp : (t : Parsing) × (deserialize_packet platform started ≡ ok tt t)
unfolding deserialize_packet new_reader next read_quoted scan_number first_round scan_char
    scan_digit number_loop push strtoll clamp_positive digits_value
read_udp = (_, refl)

-- The lengths and the checksums are filled in.
read_udp_bytes :
    read_udp.0.dest
    ≡ 69 ∷ 0 ∷ 0 ∷ 30 ∷ 0 ∷ 1 ∷ 64 ∷ 0 ∷ 64 ∷ 17 ∷ 38 ∷ 205 ∷ 10 ∷ 0 ∷ 0 ∷ 1 ∷ 10 ∷ 0 ∷ 0 ∷ 1 ∷ 0
      ∷ 80 ∷ 1 ∷ 0 ∷ 0 ∷ 10 ∷ 169 ∷ 70 ∷ 65 ∷ 66 ∷ []
unfolding read_udp
read_udp_bytes = refl

started-IsNested : IsNested started.reader
unfolding new_reader next
started-IsNested = tt

deserialize_packet-Returns_example :
    deserialize_packet platform started ≢ cheaproute.Packet.Deserialize.Parsing.out_of_fuel
deserialize_packet-Returns_example =
    deserialize_packet-Returns platform started platform-GivesAddresses started-IsNested

deserialize_packet-Verifies_example :
    Verifies
      (69 ∷ 0 ∷ 0 ∷ 30 ∷ 0 ∷ 1 ∷ 64 ∷ 0 ∷ 64 ∷ 17 ∷ 38 ∷ 205 ∷ 10 ∷ 0 ∷ 0 ∷ 1 ∷ 10 ∷ 0 ∷ 0 ∷ 1 ∷ [])
unfolding read_udp
deserialize_packet-Verifies_example =
    deserialize_packet-Verifies platform started read_udp.0 platform-GivesAddresses started-IsNested
      refl read_udp.1

lookup_name-name_at_example : lookup_name protocol_names (ascii "UDP") ≡ some 17
unfolding name_at
lookup_name-name_at_example = lookup_name-name_at protocols 17 (ascii "UDP") refl

-- What is printed is read back, its checksums and lengths filled in again.
printed_back :
    (t : Parsing) × (deserialize_packet platform
        (record { reader = (next (λ t. false) (new_reader (printed udp_packet))).1; dest = [] })
      ≡ ok tt t)
    × (t.dest ≡ udp_packet)
unfolding printed serialize_packet new_writer begin_object write_property_name write_integer
    begin_pack begin_array write_string end_array end_pack end_object digits deserialize_packet
    new_reader next read_quoted scan_number first_round scan_char scan_digit number_loop push
    strtoll clamp_positive digits_value
printed_back = (_, refl, refl)
