-- ===== src/Packet/Deserialize/Whole.antt =====
-- net/json_packet.cc: `DeserializePacket`.
use cheaproute.Prelude.{ℕ, zero, suc, true, false, ◌||◌, List, [], ◌++◌, ◌==◌, ascii, if◌then◌else◌}
use cheaproute.Hex.{HexResult, parsed, rejected, out_of_table, parse_hex}
use cheaproute.JsonReader.State.{
  start_array, end_array, start_object, end_object, string_token, token_eq,
}
use cheaproute.Packet.Fields.{byte}
use cheaproute.Packet.Deserialize.Parsing.{
  Parsing, Result, ok, out_of_fuel, undefined, Parser, ◌>>=◌, ◌>>◌, pure, fails, current,
  destination, emit, modify, with_fuel,
}
use cheaproute.Packet.Deserialize.Tables.{c_str, text_eq}
use cheaproute.Packet.Deserialize.Expect.{
  token_name, expect_next, expect_current, expect_next_token, expect_current_name, expect_next_name,
}
use cheaproute.Packet.Deserialize.Headers.{
  deserialize_ip4_header, deserialize_udp_header, deserialize_icmp_header,
}
use cheaproute.Packet.Deserialize.Tcp.{deserialize_tcp_header}
use cheaproute.Packet.Deserialize.Completion.{complete}

-- The header that the protocol wants, if it is known.
unfoldable pub deserialize_transport : ℕ → Parser (Unit {0})
unfolding expect_next_name deserialize_tcp_header deserialize_udp_header deserialize_icmp_header
deserialize_transport protocol =
    if protocol == 6
    then expect_next_name "tcp" >> deserialize_tcp_header
    else if protocol == 17
    then expect_next_name "udp" >> deserialize_udp_header
    else if protocol == 1
    then expect_next_name "icmp" >> deserialize_icmp_header
    else pure tt

-- The loop over the lines of the data.
unfoldable pub lines_loop : ℕ → List ℕ → Parser (List ℕ)
unfolding expect_next token_name
lines_loop zero str = λ env s. out_of_fuel
lines_loop (suc fuel) str = do
  expect_next
  r ← current
  elim (token_eq r.token_type end_array) [
    | true ↦ pure str
    | false ↦ elim (token_eq r.token_type string_token) [
      | false ↦
          fails (
            ascii "Unexpected token '" ++ (token_name r.token_type ++ ascii "', expected 'String'"))
      | true ↦ lines_loop fuel (str ++ r.str_value)
    ]
  ]

-- `ParseHex` to the destination, whatever it returns; it may read outside its table.
unfoldable pub hex_result : HexResult → Parsing → Result (Unit {0})
hex_result (parsed bytes) s = ok tt (record s { dest = bytes })
hex_result (rejected bytes) s = ok tt (record s { dest = bytes })
hex_result out_of_table s = undefined

unfoldable pub append_hex : List ℕ → Parser (Unit {0})
unfolding hex_result
append_hex str env s = hex_result (parse_hex str s.dest) s

-- The data, by its type.
unfoldable pub append_data : List ℕ → List ℕ → Parser (Unit {0})
unfolding text_eq append_hex
append_data type str =
    if text_eq type (ascii "text")
    then emit str
    else if text_eq type (ascii "hex")
    then append_hex str
    else pure tt

-- The `data` property with what closes the packet.
unfoldable pub deserialize_data : Parser (Unit {0})
unfolding expect_current_name expect_next_token expect_next_name text_eq c_str lines_loop
    append_data
deserialize_data = do
  expect_current_name "data"
  expect_next_token start_object
  expect_next_name "type"
  expect_next_token string_token
  r ← current
  if text_eq r.str_value (ascii "text") || text_eq r.str_value (ascii "hex")
      then (do
        expect_next_name "data"
        expect_next_token start_array
        str ← with_fuel (λ fuel. lines_loop fuel [])
        append_data r.str_value str
        expect_next_token end_object
        expect_next_token end_object)
      else fails
          (ascii "data type must be 'text' or 'hex', was '" ++ (c_str r.str_value ++ ascii "'"))

-- What follows the headers: the end of the packet, or its data.
unfoldable pub deserialize_rest : Parser (Unit {0})
unfolding expect_next deserialize_data
deserialize_rest = do
  expect_next
  r ← current
  if token_eq r.token_type end_object then pure tt else deserialize_data

-- The headers and the data, with no lengths and checksums yet.
unfoldable pub deserialize_parts : Parser (Unit {0})
unfolding expect_current expect_next_name deserialize_ip4_header deserialize_transport
    deserialize_rest byte
deserialize_parts = do
  expect_current start_object
  expect_next_name "ip"
  deserialize_ip4_header
  headers ← destination
  deserialize_transport (byte headers 9)
  deserialize_rest

-- `DeserializePacket`
unfoldable pub deserialize_packet : Parser (Unit {0})
unfolding deserialize_parts complete
deserialize_packet = deserialize_parts >> modify complete
