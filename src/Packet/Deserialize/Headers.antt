-- ===== src/Packet/Deserialize/Headers.antt =====
-- net/json_packet.cc: the IP, UDP and ICMP headers from JSON.
use cheaproute.Prelude.{
  ℕ, zero, suc, ◌+◌, ◌*◌, ◌/◌, ◌%◌, true, false, Option, none, some, List, [], ◌∷◌, ◌++◌, ◌==◌,
  ascii, bit_or, if◌then◌else◌,
}
use cheaproute.JsonReader.State.{
  start_array, end_array, start_object, end_object, string_token, token_eq,
}
use cheaproute.Packet.Names.{
  protocol_names, icmp_type_names, icmp_unreachable_names, icmp_redirect_names,
  icmp_bad_header_names,
}
use cheaproute.Packet.Serialize.Headers.{has_identifier}
use cheaproute.Packet.Deserialize.Parsing.{
  out_of_fuel, Parser, ◌>>=◌, ◌>>◌, pure, fails, prefixed, current, emit, with_fuel,
}
use cheaproute.Packet.Deserialize.Tables.{c_str, lookup_name, lookup_ip_flag}
use cheaproute.Packet.Deserialize.Expect.{
  expect_next, expect_next_token, expect_next_name, expect_enum_property, next_property,
  next_property_in,
}

-- The bytes of a field in network order.
abbrev pub be16 : ℕ → List ℕ
be16 v = v / 256 % 256 ∷ v % 256 ∷ []

abbrev pub be32 : ℕ → List ℕ
be32 v = v / 16777216 % 256 ∷ v / 65536 % 256 ∷ v / 256 % 256 ∷ v % 256 ∷ []

unfoldable pub address_or_error : List ℕ → Option (List ℕ) → Parser (List ℕ)
unfolding c_str
address_or_error str none =
    fails (ascii "Unable to parse IPv4 address '" ++ (c_str str ++ ascii "'"))
address_or_error str (some address) = pure address

unfoldable pub parse_address : List ℕ → Parser (List ℕ)
unfolding address_or_error c_str
parse_address str env s = address_or_error str (env.inet_pton (c_str str)) env s

-- `ExpectIp4Value`
unfoldable pub expect_ip4_value : Parser (List ℕ)
unfolding expect_next_token parse_address
expect_ip4_value = do expect_next_token string_token; r ← current; parse_address r.str_value

-- The loop of `DeserializeFlags`.
unfoldable pub flags_loop : (List ℕ → Option ℕ) → ℕ → ℕ → Parser ℕ
unfolding expect_next c_str
flags_loop lookup zero flags = λ env s. out_of_fuel
flags_loop lookup (suc fuel) flags = do
  expect_next
  r ← current
  elim (token_eq r.token_type end_array) [
    | true ↦ pure flags
    | false ↦ elim (token_eq r.token_type string_token) [
      | false ↦ fails (ascii "Unexpected token while deserializing flags")
      | true ↦ elim (lookup r.str_value) [
        | none ↦ fails (ascii "Unknown flag " ++ c_str r.str_value)
        | some flag ↦ flags_loop lookup fuel (bit_or flags flag)
      ]
    ]
  ]

-- `DeserializeFlags`
unfoldable pub deserialize_flags : (List ℕ → Option ℕ) → Parser ℕ
unfolding expect_next_token flags_loop
deserialize_flags lookup =
    expect_next_token start_array >> with_fuel (λ fuel. flags_loop lookup fuel 0)

-- The fields of `iphdr` that are read; the version is 4.
pub record Ip4Header : Type 0 where
  pub tos : ℕ
  pub id : ℕ
  pub fragment : ℕ
  pub ttl : ℕ
  pub protocol : ℕ
  pub source : List ℕ
  pub destination : List ℕ

-- The bytes of `iphdr` with an `ihl` of 5, no length and no checksum.
unfoldable pub ip4_bytes : ℕ → Ip4Header → List ℕ
ip4_bytes version h =
    ((version % 16 * 16 + 5) ∷ h.tos ∷ 0 ∷ 0 ∷ [])
    ++ (be16 h.id
        ++ (be16 h.fragment ++ ((h.ttl ∷ h.protocol ∷ 0 ∷ 0 ∷ []) ++ (h.source ++ h.destination))))

-- `DeserializeIp4Header`
unfoldable pub deserialize_ip4_header : Parser (Unit {0})
unfolding expect_next_token next_property_in next_property expect_next_name deserialize_flags
    expect_enum_property expect_ip4_value lookup_name lookup_ip_flag ip4_bytes
deserialize_ip4_header = do
  expect_next_token start_object
  version ← next_property_in "version" 4 4
  tos ← next_property_in "tos" 0 255
  id ← next_property "id" 65535
  expect_next_name "flags"
  flags ←
      prefixed (ascii "While reading property 'flags' in ip header")
        (deserialize_flags lookup_ip_flag)
  offset ← next_property_in "fragmentOffset" 0 8191
  ttl ← next_property "ttl" 255
  protocol ← expect_enum_property "protocol" (lookup_name protocol_names)
  expect_next_name "source"
  source ← prefixed (ascii "In property 'source'") expect_ip4_value
  expect_next_name "destination"
  destination ← prefixed (ascii "In property 'destination'") expect_ip4_value
  prefixed (ascii "While reading IP header") (expect_next_token end_object)
  emit (
      ip4_bytes version (record {
        tos = tos;
        id = id;
        fragment = bit_or offset (flags % 65536);
        ttl = ttl;
        protocol = protocol;
        source = source;
        destination = destination;
      }))

-- `DeserializeUdpHeader`
unfoldable pub deserialize_udp_header : Parser (Unit {0})
unfolding expect_next_token next_property
deserialize_udp_header = do
  expect_next_token start_object
  source ← next_property "sourcePort" 65535
  dest ← next_property "destPort" 65535
  expect_next_token end_object
  emit (be16 source ++ (be16 dest ++ (0 ∷ 0 ∷ 0 ∷ 0 ∷ [])))

-- The code, by the type.
unfoldable pub icmp_code : ℕ → Parser ℕ
unfolding expect_enum_property lookup_name next_property
icmp_code type =
    if type == 3
    then expect_enum_property "code" (lookup_name icmp_unreachable_names)
    else if type == 5
    then expect_enum_property "code" (lookup_name icmp_redirect_names)
    else if type == 12
    then expect_enum_property "code" (lookup_name icmp_bad_header_names)
    else next_property "code" 255

-- The last four bytes of the header, by the type.
unfoldable pub icmp_rest : ℕ → Parser (List ℕ)
unfolding next_property expect_next_name expect_ip4_value has_identifier
icmp_rest type =
    if has_identifier type
    then (do
      id ← next_property "identifier" 65535
      sequence ← next_property "sequenceNumber" 65535
      pure (be16 id ++ be16 sequence))
    else if type == 3
    then (do mtu ← next_property "nextHopMtu" 65535; pure (0 ∷ 0 ∷ be16 mtu))
    else if type == 5
    then expect_next_name "gateway" >> expect_ip4_value
    else pure (0 ∷ 0 ∷ 0 ∷ 0 ∷ [])

-- `DeserializeIcmpHeader`
unfoldable pub deserialize_icmp_header : Parser (Unit {0})
unfolding expect_next_token expect_enum_property lookup_name icmp_code icmp_rest
deserialize_icmp_header = do
  expect_next_token start_object
  type ← expect_enum_property "type" (lookup_name icmp_type_names)
  code ← icmp_code type
  rest ← icmp_rest type
  expect_next_token end_object
  emit (type ∷ code ∷ 0 ∷ 0 ∷ rest)
