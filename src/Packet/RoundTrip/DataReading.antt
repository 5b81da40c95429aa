-- ===== src/Packet/RoundTrip/DataReading.antt =====
-- net/json_packet.cc: the data that `SerializeBytes` wrote, read back.
use cheaproute.Prelude.{
  ℕ, ◌≡◌, refl, sym, Bool, true, false, ◌||◌, List, [], ◌∷◌, ◌++◌, append-nil, All, IsByte, arith,
  ascii, length, if◌then◌else◌,
}
use cheaproute.Hex.{parsed, parse_hex}
use cheaproute.JsonReader.State.{JsonReader, start_array, end_object, token_eq}
use cheaproute.JsonRoundTrip.Calls.{
  Call, opens_array, closes_array, opens_object, closes_object, name, text,
}
use cheaproute.Packet.Deserialize.Parsing.{Platform, Parser, ◌>>=◌, ◌>>◌, pure, fails, with_fuel}
use cheaproute.Packet.Deserialize.Tables.{c_str, text_eq}
use cheaproute.Packet.Deserialize.Expect.{expect_next_token, expect_next_name}
use cheaproute.Packet.Deserialize.Whole.{
  lines_loop, hex_result, append_hex, append_data, deserialize_data, deserialize_rest,
}
use cheaproute.Packet.Serialize.Bytes.{is_plain_text}
use cheaproute.Packet.RoundTrip.DataCalls.{text_lines_of, hex_lines_of, data_calls, bytes_calls}
use cheaproute.Packet.RoundTrip.Yields.{seen-token, seen-str}
use cheaproute.Packet.RoundTrip.Lines.{
  joined, text_lines_of-joined, parse_hex-lines, lines_enough, lines_loop-Gives,
}
use cheaproute.Packet.RoundTrip.Reading.{
  Gives, ◌▸◌, chain, pure-Gives, emit-Gives, current-Gives, expect_next-Gives, with_fuel-Gives,
  same_bytes, expect_next_token-Gives, expect_current_name-Gives, expect_next_name-Gives,
}

-- What follows the type of the data.
abbrev typed_data : JsonReader → Parser (Unit {0})
typed_data r =
    if text_eq r.str_value (ascii "text") || text_eq r.str_value (ascii "hex")
    then (do
      expect_next_name "data"
      expect_next_token start_array
      str ← with_fuel (λ fuel. lines_loop fuel [])
      append_data r.str_value str
      expect_next_token end_object
      expect_next_token end_object)
    else fails
        (ascii "data type must be 'text' or 'hex', was '" ++ (c_str r.str_value ++ ascii "'"))

-- What `DeserializePacket` does with the token behind the headers.
abbrev what_follows : JsonReader → Parser (Unit {0})
what_follows r = if token_eq r.token_type end_object then pure tt else deserialize_data

module _ {env : Platform} where
  append_hex-Gives :
      {now : Call} (str bytes : List ℕ)
      → ((destination : List ℕ) → parse_hex str destination ≡ parsed (destination ++ bytes))
      → Gives env now (λ r. r) now (append_hex str) tt bytes
  unfolding append_hex hex_result
  append_hex-Gives str bytes e = record {
    run = λ rest s h. (record s { dest = s.dest ++ bytes }, rw (e s.dest) refl, h, refl);
  }

  deserialize_data-Gives :
      (type : List ℕ) (strs : List (List ℕ)) (bytes : List ℕ)
      → (text_eq type (ascii "text") || text_eq type (ascii "hex")) ≡ true
      → Gives env closes_array (λ r. r) closes_array (append_data type (joined strs)) tt bytes
      → Gives env
          (name (ascii "data"))
          (λ r. data_calls type strs (closes_object ∷ r))
          closes_object
          deserialize_data
          tt
          (bytes ++ [])
  unfolding deserialize_data
  deserialize_data-Gives type strs bytes known append =
      expect_current_name-Gives "data"
      ▸ (expect_next_token-Gives opens_object
          ▸ (expect_next_name-Gives "type"
              ▸ (expect_next_token-Gives (text type)
                  ▸ current-Gives typed_data (λ r d.
                    rw (seen-str r (text type) d, known)
                      (expect_next_name-Gives "data"
                        ▸ (expect_next_token-Gives opens_array
                            ▸ chain _
                                (with_fuel-Gives (length strs) (λ fuel. lines_loop fuel [])
                                  (lines_enough strs) (lines_loop-Gives strs []))
                                (append
                                  ▸ (expect_next_token-Gives closes_object
                                      ▸ expect_next_token-Gives closes_object))))))))

  append_data-text :
      (strs : List (List ℕ)) (bytes : List ℕ)
      → joined strs ≡ bytes
      → Gives env closes_array
          (λ r. r)
          closes_array
          (append_data (ascii "text") (joined strs))
          tt
          bytes
  unfolding append_data text_eq
  append_data-text strs bytes e = rw e (emit-Gives bytes)

  append_data-hex :
      (strs : List (List ℕ)) (bytes : List ℕ)
      → ((destination : List ℕ)
          → parse_hex (joined strs) destination ≡ parsed (destination ++ bytes))
      → Gives env closes_array
          (λ r. r)
          closes_array
          (append_data (ascii "hex") (joined strs))
          tt
          bytes
  unfolding append_data text_eq
  append_data-hex strs bytes e = append_hex-Gives (joined strs) bytes e

  bytes-Gives :
      (bytes : List ℕ) (plain : Bool)
      → All IsByte bytes
      → Gives env
          (name (ascii "data"))
          (λ r.
            (if plain
                then data_calls (ascii "text") (text_lines_of [] bytes)
                else data_calls (ascii "hex") (hex_lines_of (length bytes) bytes))
              (closes_object ∷ r))
          closes_object
          deserialize_data
          tt
          (bytes ++ [])
  unfolding text_eq
  bytes-Gives bytes true b =
      deserialize_data-Gives (ascii "text") (text_lines_of [] bytes) bytes refl
        (append_data-text (text_lines_of [] bytes) bytes (text_lines_of-joined [] bytes))
  bytes-Gives bytes false b =
      deserialize_data-Gives (ascii "hex") (hex_lines_of (length bytes) bytes) bytes refl (
        append_data-hex (hex_lines_of (length bytes) bytes) bytes
          (λ d. parse_hex-lines (length bytes) bytes d (omega arith) b))

  -- The data behind the headers, if there are any, and the end of the packet.
  pub deserialize_rest-Gives :
      {now : Call} (bytes : List ℕ) (some_data : Bool)
      → All IsByte bytes
      → (some_data ≡ false → bytes ≡ [])
      → Gives env now
          (λ r.
            if some_data
            then name (ascii "data") ∷ bytes_calls bytes (closes_object ∷ r)
            else closes_object ∷ r)
          closes_object
          deserialize_rest
          tt
          bytes
  unfolding deserialize_rest
  deserialize_rest-Gives bytes true b e = same_bytes (append-nil bytes) (
      expect_next-Gives (name (ascii "data"))
      ▸ current-Gives what_follows (λ r d.
        rw (seen-token r (name (ascii "data")) d) (bytes-Gives bytes (is_plain_text bytes) b)))
  deserialize_rest-Gives bytes false b e = same_bytes (sym (e refl)) (
      expect_next-Gives closes_object
      ▸ current-Gives what_follows (λ r d. rw (seen-token r closes_object d) (pure-Gives tt)))
