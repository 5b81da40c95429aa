-- ===== src/Packet/Writing.antt =====
-- Programs that drive a `JsonWriter`: its calls in a row.
use cheaproute.Prelude.{ℕ, Option, none, some, List, ascii}
use cheaproute.Prelude.Int.{pos}
use Prim.Native.String.{String}
use cheaproute.JsonWriter.{
  JsonWriter, write_property_name, write_string, write_uint32, write_integer, begin_array,
  end_array, begin_object, end_object, begin_pack, end_pack,
}

-- The writer after the calls; or an `assert` failed; or the fuel of a loop ran out.
pub data Outcome : Type 0 where
  wrote : JsonWriter → Outcome
  assert_failed : Outcome
  out_of_fuel : Outcome

abbrev pub Action : Type 0
Action = JsonWriter → Outcome

abbrev pub outcome : Option JsonWriter → Outcome
outcome none = assert_failed
outcome (some w) = wrote w

abbrev pub and_then : Outcome → Action → Outcome
and_then (wrote w) k = k w
and_then assert_failed k = assert_failed
and_then out_of_fuel k = out_of_fuel

infixl 5 ◌>>◌
abbrev pub ◌>>◌ : Action → Action → Action
◌>>◌ a b w = and_then (a w) b

abbrev pub done : Action
done w = wrote w

abbrev pub property : String → Action
property s w = outcome (write_property_name (ascii s) w)

abbrev pub string : String → Action
string s w = outcome (write_string (ascii s) w)

abbrev pub text : List ℕ → Action
text str w = outcome (write_string str w)

-- `WriteInteger(int)` of a value that is not negative.
abbrev pub int : ℕ → Action
int n w = outcome (write_integer (pos n) w)

abbrev pub uint : ℕ → Action
uint n w = outcome (write_uint32 n w)

abbrev pub open_array : Action
open_array w = outcome (begin_array w)

abbrev pub close_array : Action
close_array w = outcome (end_array w)

abbrev pub open_object : Action
open_object w = outcome (begin_object w)

abbrev pub close_object : Action
close_object w = outcome (end_object w)

abbrev pub pack : Action
pack w = wrote (begin_pack w)

abbrev pub unpack : Action
unpack w = wrote (end_pack w)
