-- ===== src/JsonRoundTrip/Calls.antt =====
-- A run of the printer of base/json_writer.cc as the list of the calls that a client makes, and
-- what a client of base/json_reader.cc sees of the same document, one event for each `Next`.
use cheaproute.Prelude.{
  ℕ, zero, suc, ◌≡◌, ◌≢◌, Bool, Option, none, some, List, [], ◌∷◌, All, if◌then◌else◌,
}
use cheaproute.Prelude.Int.{ℤ}
use cheaproute.JsonReader.State.{
  JsonReader, JsonToken, no_token, start_array, end_array, start_object, end_object, property_name,
  string_token, integer, float, boolean, null,
}
use cheaproute.JsonReader.{next}
use cheaproute.JsonWriter.{
  JsonWriter, document_start, start_object as at_brace, write_property_name, write_string,
  write_integer, write_boolean, write_null, begin_array, begin_object, end_array as finish_array,
  end_object as finish_object, begin_pack, end_pack,
}
use cheaproute.JsonRoundTrip.Escapes.{IsChar}
use cheaproute.JsonRoundTrip.Integers.{IsInt64}

-- A call of the printer that prints something, which is also what a reader of it has to see.
pub data Call : Type 0 where
  opens_array closes_array opens_object closes_object : Call
  name : List ℕ → Call
  text : List ℕ → Call
  number : ℤ → Call
  truth : Bool → Call
  nothing : Call

unfoldable pub perform : Call → JsonWriter → Option JsonWriter
unfolding write_property_name write_string write_integer write_boolean write_null begin_array
    begin_object finish_array finish_object
perform opens_array w = begin_array w
perform closes_array w = finish_array w
perform opens_object w = begin_object w
perform closes_object w = finish_object w
perform (name str) w = write_property_name str w
perform (text str) w = write_string str w
perform (number v) w = write_integer v w
perform (truth b) w = write_boolean b w
perform nothing w = write_null w

-- Where the printer's `assert` lets a call through that makes no JSON: a value right behind the
-- opening brace. A number is written inside of a container.
abbrev pub IsReadable : JsonWriter → Call → Type 0
IsReadable w opens_array = w.mode ≢ at_brace
IsReadable w closes_array = Unit
IsReadable w opens_object = w.mode ≢ at_brace
IsReadable w closes_object = Unit
IsReadable w (name str) = All IsChar str
IsReadable w (text str) = (w.mode ≢ at_brace) × All IsChar str
IsReadable w (number v) = (w.mode ≢ at_brace) × (w.mode ≢ document_start) × IsInt64 v
IsReadable w (truth b) = w.mode ≢ at_brace
IsReadable w nothing = w.mode ≢ at_brace

-- The run of the printer from one state to another, with what it prints.
pub data Prints : JsonWriter → List Call → JsonWriter → Type 0 where
  done : {w : JsonWriter} → Prints w [] w
  pack :
      {w w' : JsonWriter} {calls : List Call} → Prints (begin_pack w) calls w' → Prints w calls w'
  unpack :
      {w w' : JsonWriter} {calls : List Call} → Prints (end_pack w) calls w' → Prints w calls w'
  call :
      {w v w' : JsonWriter} {c : Call} {calls : List Call}
      → IsReadable w c
      → perform c w ≡ some v
      → Prints v calls w'
      → Prints w (c ∷ calls) w'

-- What the accessors of the reader give for the token.
abbrev pub seen_as : JsonToken → JsonReader → Option Call
seen_as no_token r = none
seen_as start_array r = some opens_array
seen_as end_array r = some closes_array
seen_as start_object r = some opens_object
seen_as end_object r = some closes_object
seen_as property_name r = some (name r.str_value)
seen_as string_token r = some (text r.str_value)
seen_as integer r = some (number r.int_value)
seen_as float r = none
seen_as boolean r = some (truth r.bool_value)
seen_as null r = some nothing

abbrev pub seen : JsonReader → Option Call
seen r = seen_as r.token_type r

-- `while (reader.Next())`, with what is seen in each round, and the state behind the loop.
unfoldable pub read_all : (List ℕ → Bool) → ℕ → JsonReader → List (Option Call) × JsonReader
unfolding next
read_all strtod_overflows zero r = ([], r)
read_all strtod_overflows (suc fuel) r =
    let (read, r') = next strtod_overflows r in
    let (more, last) = read_all strtod_overflows fuel r' in
    if read then (seen r' ∷ more, last) else ([], r')
