-- ===== src/Packet/Deserialize/Expect.antt =====
-- net/json_packet.cc: the functions that expect a token, a name or a value.
use cheaproute.Prelude.{
  ℕ, Bool, true, false, ◌&&◌, Option, none, some, List, [], ◌∷◌, ◌++◌, leb, ascii, get_or,
  if◌then◌else◌,
}
use cheaproute.Prelude.Int.{ℤ, pos, negsuc}
use Prim.Native.String.{String}
use cheaproute.JsonReader.{next}
use cheaproute.JsonReader.Text.{JsonError, out_of_range}
use cheaproute.JsonReader.State.{JsonToken, index, property_name, integer, token_eq}
use cheaproute.JsonWriter.Text.{signed_decimal}
use cheaproute.Packet.Deserialize.Parsing.{
  ok, error, Parser, ◌>>=◌, ◌>>◌, pure, fails, prefixed, current,
}
use cheaproute.Packet.Deserialize.Tables.{c_str, text_eq}

-- `kJsonTokenNames` and `GetJsonTokenName`
abbrev pub token_names : List (List ℕ)
token_names =
    ascii "None"
    ∷ ascii "StartArray"
    ∷ ascii "EndArray"
    ∷ ascii "StartObject"
    ∷ ascii "EndObject"
    ∷ ascii "PropertyName"
    ∷ ascii "String"
    ∷ ascii "Integer"
    ∷ ascii "Float"
    ∷ ascii "Boolean"
    ∷ ascii "Null"
    ∷ []

unfoldable pub token_name : JsonToken → List ℕ
token_name token = get_or token_names (index token) (ascii "Unknown")

-- `ExpectNextJsonToken` of any token.
unfoldable pub expect_next : Parser (Unit {0})
expect_next env s =
    let (more, r) = next env.strtod_overflows s.reader in
    if more
    then ok tt (record s { reader = r })
    else error (ascii "Unexpected end of file") (record s { reader = r })

unfoldable pub unexpected_token : JsonToken → JsonToken → List ℕ
unfolding token_name
unexpected_token token expected =
    ascii "Unexpected token '"
    ++ (token_name token ++ (ascii "', expected token '" ++ (token_name expected ++ ascii "'")))

-- `ExpectCurrentJsonToken`
unfoldable pub expect_current : JsonToken → Parser (Unit {0})
unfolding unexpected_token
expect_current token env s =
    if token_eq s.reader.token_type token
    then ok tt s
    else error (unexpected_token s.reader.token_type token) s

-- `ExpectNextJsonToken`
unfoldable pub expect_next_token : JsonToken → Parser (Unit {0})
unfolding expect_next expect_current
expect_next_token token = expect_next >> expect_current token

-- `ExpectCurrentPropertyName`
unfoldable pub expect_current_name : String → Parser (Unit {0})
unfolding token_name text_eq c_str
expect_current_name name env s =
    if token_eq s.reader.token_type property_name
    then (if text_eq s.reader.str_value (ascii name)
        then ok tt s
        else error
            (ascii "expected property named '"
              ++ (ascii name
                  ++ (ascii "', instead it was named '"
                      ++ (c_str s.reader.str_value ++ ascii "'"))))
            s)
    else error
        (ascii "expected property named "
          ++ (ascii name ++ (ascii ", was token " ++ token_name s.reader.token_type)))
        s

-- `ExpectNextPropertyName`
unfoldable pub expect_next_name : String → Parser (Unit {0})
unfolding expect_next expect_current_name
expect_next_name name = expect_next >> expect_current_name name

-- The value of a found entry.
unfoldable pub found_or_unknown : List ℕ → Option ℕ → Parser ℕ
unfolding c_str
found_or_unknown str none = fails (ascii "unknown value '" ++ (c_str str ++ ascii "'"))
found_or_unknown str (some value) = pure value

-- `ExpectNextEnumValue`
unfoldable pub expect_enum_value : (List ℕ → Option ℕ) → Parser ℕ
unfolding expect_next found_or_unknown
expect_enum_value lookup = do
  expect_next
  r ← current
  found_or_unknown r.str_value (lookup r.str_value)

-- `ExpectNextEnumProperty`
unfoldable pub expect_enum_property : String → (List ℕ → Option ℕ) → Parser ℕ
unfolding expect_next_name expect_enum_value
expect_enum_property name lookup = do
  expect_next_name name
  prefixed (ascii "Error with property '" ++ (ascii name ++ ascii "'")) (expect_enum_value lookup)

unfoldable pub is_out_of_range : JsonError → Bool
is_out_of_range out_of_range = true
is_out_of_range _ = false

-- The test of the value, and the cast to the unsigned type of the result.
unfoldable pub value_in : ℕ → ℕ → ℤ → Option ℕ
value_in min_value max_value (pos n) = if leb min_value n && leb n max_value then some n else none
value_in min_value max_value (negsuc n) = none

unfoldable pub value_or_error : ℕ → ℕ → ℤ → Option ℕ → Parser ℕ
value_or_error min_value max_value value (some n) = pure n
value_or_error min_value max_value value none = fails (
    ascii "expected integer between "
    ++ (signed_decimal (pos min_value)
        ++ (ascii " and "
            ++ (signed_decimal (pos max_value) ++ (ascii "; was " ++ signed_decimal value)))))

-- `ExpectCurrentInt64Value`, and `ExpectCurrentValue` of an unsigned type.
unfoldable pub expect_current_value : ℕ → ℕ → Parser ℕ
unfolding unexpected_token is_out_of_range value_in value_or_error
expect_current_value min_value max_value env s =
    if token_eq s.reader.token_type integer
    then value_or_error min_value max_value s.reader.int_value
        (value_in min_value max_value s.reader.int_value) env s
    else if is_out_of_range s.reader.error_code
    then error (ascii "integer out of range") s
    else error (unexpected_token s.reader.token_type integer) s

-- `ExpectNextValue`
unfoldable pub expect_value : ℕ → ℕ → Parser ℕ
unfolding expect_next expect_current_value
expect_value min_value max_value = expect_next >> expect_current_value min_value max_value

-- `ExpectCurrentProperty` and `ExpectNextProperty` of all values of an unsigned type, up to
-- `max_value`.
unfoldable pub current_property : String → ℕ → Parser ℕ
unfolding expect_current_name expect_value
current_property name max_value = do
  expect_current_name name
  prefixed (ascii "Error with property '" ++ (ascii name ++ ascii "'")) (expect_value 0 max_value)

unfoldable pub next_property : String → ℕ → Parser ℕ
unfolding expect_next current_property
next_property name max_value = expect_next >> current_property name max_value

-- `ExpectNextProperty` with bounds.
unfoldable pub next_property_in : String → ℕ → ℕ → Parser ℕ
unfolding expect_next_name expect_value
next_property_in name min_value max_value = do
  expect_next_name name
  prefixed (ascii "Error parsing property " ++ ascii name) (expect_value min_value max_value)
