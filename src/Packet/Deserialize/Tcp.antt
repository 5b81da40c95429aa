-- ===== src/Packet/Deserialize/Tcp.antt =====
-- net/json_packet.cc: the TCP header from JSON.
use cheaproute.Prelude.{
  ℕ, zero, suc, ◌+◌, ◌-◌, ◌*◌, ◌/◌, ◌%◌, true, false, List, [], ◌∷◌, ◌++◌, ◌==◌, ascii,
  if◌then◌else◌, length, take, drop,
}
use cheaproute.JsonReader.State.{
  start_array, end_array, start_object, end_object, property_name, token_eq,
}
use cheaproute.Packet.Fields.{bit}
use cheaproute.Packet.Names.{tcp_flags, tcp_options}
use cheaproute.Packet.Deserialize.Parsing.{
  out_of_fuel, Parser, ◌>>=◌, ◌>>◌, pure, fails, current, destination, emit, modify, with_fuel,
}
use cheaproute.Packet.Deserialize.Tables.{text_eq, lookup_name, lookup_flag}
use cheaproute.Packet.Deserialize.Expect.{
  expect_next, expect_current, expect_next_token, expect_current_name, expect_enum_value,
  expect_value, current_property, next_property,
}
use cheaproute.Packet.Deserialize.Headers.{be16, be32, deserialize_flags}

-- The `switch` over the kind of an option: the bytes that it pushes.
unfoldable pub option_body : ℕ → Parser (Unit {0})
unfolding expect_value
option_body kind =
    if kind == 0
    then emit (kind ∷ [])
    else if kind == 1
    then emit (kind ∷ [])
    else if kind == 4
    then emit (kind ∷ 2 ∷ [])
    else if kind == 3
    then (emit (kind ∷ 4 ∷ []) >> (expect_value 0 65535 >>= λ value. emit (be16 value)))
    else if kind == 2
    then (emit (kind ∷ 4 ∷ []) >> (expect_value 0 65535 >>= λ value. emit (be16 value)))
    else if kind == 5
    then fails (ascii "Selective acknowledgements are not supported")
    else if kind == 8
    then (do
      emit (kind ∷ 10 ∷ [])
      value ← expect_value 0 4294967295
      echo ← expect_value 0 4294967295
      emit (be32 value ++ be32 echo))
    else pure tt

-- The loop of `DeserializeTcpHeaderOptions`.
unfoldable pub read_options_loop : ℕ → Parser (Unit {0})
unfolding expect_current expect_enum_value lookup_name option_body expect_next_token expect_next
read_options_loop zero = λ env s. out_of_fuel
read_options_loop (suc fuel) = do
  r ← current
  elim (token_eq r.token_type end_array) [
    | true ↦ pure tt
    | false ↦ do
      expect_current start_array
      kind ← expect_enum_value (lookup_name tcp_options)
      option_body kind
      expect_next_token end_array
      expect_next
      read_options_loop fuel
  ]

-- `DeserializeTcpHeaderOptions`
unfoldable pub deserialize_options : Parser (Unit {0})
unfolding expect_current_name expect_next_token expect_next read_options_loop
deserialize_options = do
  r ← current
  elim (token_eq r.token_type end_object) [
    | true ↦ pure tt
    | false ↦ do
      expect_current_name "options"
      expect_next_token start_array
      expect_next
      with_fuel read_options_loop
      expect_next_token end_object
  ]

-- The acknowledgement number, if the property is there; then the next property is read.
unfoldable pub acknowledgement : Parser ℕ
unfolding text_eq current_property expect_next_token
acknowledgement = do
  r ← current
  if text_eq r.str_value (ascii "ackNumber")
      then (do
        number ← current_property "ackNumber" 4294967295
        expect_next_token property_name
        pure number)
      else pure 0

-- The urgent pointer, where the flag is set.
unfoldable pub urgent_pointer : ℕ → Parser ℕ
unfolding bit next_property
urgent_pointer flags = if bit flags 5 then next_property "urgentPointer" 65535 else pure 0

-- The bytes of `tcphdr`; of the flags the six from FIN to URG are kept.
unfoldable pub tcp_bytes : ℕ → ℕ → ℕ → ℕ → ℕ → ℕ → ℕ → List ℕ
tcp_bytes source dest seq ack flags window urgent =
    be16 source
    ++ (be16 dest
        ++ (be32 seq
            ++ (be32 ack
                ++ ((0 ∷ flags % 64 ∷ []) ++ (be16 window ++ ((0 ∷ 0 ∷ []) ++ be16 urgent))))))

-- `doff`, the upper half of the byte at 12, in the header at `offset`.
unfoldable pub set_data_offset : ℕ → ℕ → List ℕ → List ℕ
set_data_offset offset words dest =
    take (offset + 12) dest ++ (words % 16 * 16 ∷ drop (offset + 13) dest)

-- `DeserializeTcpHeader`
unfoldable pub deserialize_tcp_header : Parser (Unit {0})
unfolding expect_next_token next_property acknowledgement expect_current_name deserialize_flags
    lookup_flag urgent_pointer expect_next tcp_bytes deserialize_options set_data_offset
deserialize_tcp_header = do
  expect_next_token start_object
  source ← next_property "sourcePort" 65535
  dest ← next_property "destPort" 65535
  seq ← next_property "seqNumber" 4294967295
  expect_next_token property_name
  ack ← acknowledgement
  expect_current_name "flags"
  flags ← deserialize_flags (lookup_flag tcp_flags)
  window ← next_property "windowSize" 65535
  urgent ← urgent_pointer flags
  expect_next
  before ← destination
  emit (tcp_bytes source dest seq ack flags window urgent)
  header ← destination
  deserialize_options
  after ← destination
  let options_size = length after - length header
  if options_size % 4 == 0
      then modify (set_data_offset (length before) (5 + options_size / 4))
      else fails (ascii "TCP header options are not padded correctly")
