-- ===== src/JsonReader/State.antt =====
-- base/json_reader.h: the tokens, the modes and the state of the reader.
use cheaproute.Prelude.{ℕ, Bool, List, ◌==◌}
use cheaproute.Prelude.Int.{ℤ}
use cheaproute.JsonReader.Text.{JsonError}

pub data JsonToken : Type 0 where
  no_token start_array end_array start_object end_object property_name : JsonToken
  string_token integer float boolean null : JsonToken

-- The place of a token in the enumeration.
abbrev pub index : JsonToken → ℕ
index no_token = 0
index start_array = 1
index end_array = 2
index start_object = 3
index end_object = 4
index property_name = 5
index string_token = 6
index integer = 7
index float = 8
index boolean = 9
index null = 10

abbrev pub token_eq : JsonToken → JsonToken → Bool
token_eq a b = index a == index b

pub data JsonMode : Type 0 where
  document_start array_mode object_mode : JsonMode

pub record JsonReader : Type 0 where
  pub stream : List ℕ
  pub error_code : JsonError
  pub token_type : JsonToken
  pub mode : JsonMode
  pub str_value : List ℕ
  pub int_value : ℤ
  pub float_text : List ℕ
  pub bool_value : Bool
  pub mode_stack : List JsonMode
