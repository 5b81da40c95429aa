-- ===== src/JsonWriter.antt =====
-- base/json_writer.h and base/json_writer.cc: the JSON printer. The stream is the list of bytes
-- written so far, which Stream/Output.antt shows a buffered stream to deliver. An `assert` that
-- fails, or a `top()` of an empty stack, is `none`.
pub mod Text
pub mod Values
use cheaproute.Prelude.{
  ℕ, zero, suc, ◌+◌, Bool, true, false, not, ◌&&◌, Option, none, some, List, [], ◌∷◌, ◌++◌,
  if◌then◌else◌, ascii, replicate,
}
use cheaproute.Prelude.Int.{ℤ, pos, negsuc, increment, decrement, is_zero}
use Text.{quoted, decimal, signed_decimal}

pub data JsonWriterMode : Type 0 where
  document_start start_object object_property_name object_property_value : JsonWriterMode
  start_array middle_array : JsonWriterMode

-- `flags` has the bit `JsonWriterFlags_Indent` or not.
pub record JsonWriter : Type 0 where
  pub out : List ℕ
  pub should_indent : Bool
  pub mode : JsonWriterMode
  pub indent : ℤ
  pub pack : ℤ
  pub mode_stack : List JsonWriterMode

unfoldable pub new_writer : Bool → JsonWriter
new_writer should_indent = record {
  out = [];
  should_indent = should_indent;
  mode = document_start;
  indent = pos 0;
  pack = pos 0;
  mode_stack = [];
}

abbrev pub emit : List ℕ → JsonWriter → JsonWriter
emit bytes w = record w { out = w.out ++ bytes }

-- `i < indent_` rounds of the loop.
abbrev pub spaces : ℤ → List ℕ
spaces (pos n) = replicate n b' '
spaces (negsuc n) = []

-- `BeginNewLineIfNecessary`, as the bytes that it writes.
unfoldable pub new_line : JsonWriter → List ℕ
new_line w = if w.should_indent && is_zero w.pack then b'\n' ∷ spaces w.indent else []

-- A comma, with a space where values are packed on a line.
unfoldable pub comma : JsonWriter → List ℕ
comma w = b',' ∷ (if w.should_indent && not (is_zero w.pack) then b' ' ∷ [] else [])

-- `BeginValue`
unfoldable pub begin_value_in : JsonWriterMode → JsonWriter → Option JsonWriter
unfolding new_line comma
begin_value_in document_start w = some w
begin_value_in start_object w = some w
begin_value_in object_property_name w = none
begin_value_in object_property_value w = some (record w { mode = object_property_name })
begin_value_in start_array w = some (emit (new_line w) (record w { mode = middle_array }))
begin_value_in middle_array w = some (emit (comma w ++ new_line w) w)

unfoldable pub begin_value : JsonWriter → Option JsonWriter
unfolding begin_value_in
begin_value w = begin_value_in w.mode w

abbrev pub then_emit : Option JsonWriter → List ℕ → Option JsonWriter
then_emit none bytes = none
then_emit (some w) bytes = some (emit bytes w)

-- `WritePropertyName`
unfoldable pub name_text : List ℕ → JsonWriter → List ℕ
unfolding quoted new_line
name_text str w = new_line w ++ (quoted str ++ (b':' ∷ (if w.should_indent then b' ' ∷ [] else [])))

unfoldable pub write_property_name_in : JsonWriterMode → List ℕ → JsonWriter → Option JsonWriter
unfolding name_text comma
write_property_name_in start_object str w =
    some (emit (name_text str w) (record w { mode = object_property_value }))
write_property_name_in object_property_name str w =
    some (emit (comma w ++ name_text str w) (record w { mode = object_property_value }))
write_property_name_in document_start str w = none
write_property_name_in object_property_value str w = none
write_property_name_in start_array str w = none
write_property_name_in middle_array str w = none

unfoldable pub write_property_name : List ℕ → JsonWriter → Option JsonWriter
unfolding write_property_name_in
write_property_name str w = write_property_name_in w.mode str w

unfoldable pub write_string : List ℕ → JsonWriter → Option JsonWriter
unfolding begin_value quoted
write_string str w = then_emit (begin_value w) (quoted str)

-- `WriteInteger(uint32_t)`
unfoldable pub write_uint32 : ℕ → JsonWriter → Option JsonWriter
unfolding begin_value decimal
write_uint32 value w = then_emit (begin_value w) (decimal value)

-- `WriteInteger(int)` and `WriteInteger(int64_t)`
unfoldable pub write_integer : ℤ → JsonWriter → Option JsonWriter
unfolding begin_value signed_decimal
write_integer value w = then_emit (begin_value w) (signed_decimal value)

unfoldable pub write_boolean : Bool → JsonWriter → Option JsonWriter
unfolding begin_value
write_boolean value w = then_emit (begin_value w) (if value then ascii "true" else ascii "false")

unfoldable pub write_null : JsonWriter → Option JsonWriter
unfolding begin_value
write_null w = then_emit (begin_value w) (ascii "null")

-- `indent_ += 2` and `indent_ -= 2`
unfoldable pub deeper : ℤ → ℤ
unfolding increment
deeper i = increment (increment i)

unfoldable pub shallower : ℤ → ℤ
unfolding decrement
shallower i = decrement (decrement i)

abbrev pub begin_container : ℕ → JsonWriterMode → Option JsonWriter → Option JsonWriter
begin_container bracket m none = none
begin_container bracket m (some w) = some (record w {
  out = w.out ++ bracket ∷ [];
  mode_stack = w.mode ∷ w.mode_stack;
  mode = m;
  indent = deeper w.indent;
})

unfoldable pub begin_array : JsonWriter → Option JsonWriter
unfolding begin_value deeper
begin_array w = begin_container b'[' start_array (begin_value w)

unfoldable pub begin_object : JsonWriter → Option JsonWriter
unfolding begin_value deeper
begin_object w = begin_container b'{' start_object (begin_value w)

-- The end of `EndArray` and of `EndObject`, behind the `assert`.
unfoldable pub end_container : ℕ → List JsonWriterMode → JsonWriter → Option JsonWriter
unfolding shallower new_line
end_container bracket [] w = none
end_container bracket (m ∷ modes) w =
    let w' = record w { indent = shallower w.indent } in
    some (record w' { out = w.out ++ (new_line w' ++ bracket ∷ []); mode = m; mode_stack = modes })

unfoldable pub end_array_in : JsonWriterMode → JsonWriter → Option JsonWriter
unfolding end_container
end_array_in start_array w = end_container b']' w.mode_stack w
end_array_in middle_array w = end_container b']' w.mode_stack w
end_array_in document_start w = none
end_array_in start_object w = none
end_array_in object_property_name w = none
end_array_in object_property_value w = none

unfoldable pub end_array : JsonWriter → Option JsonWriter
unfolding end_array_in
end_array w = end_array_in w.mode w

unfoldable pub end_object_in : JsonWriterMode → JsonWriter → Option JsonWriter
unfolding end_container
end_object_in object_property_name w = end_container b'}' w.mode_stack w
end_object_in start_object w = end_container b'}' w.mode_stack w
end_object_in document_start w = none
end_object_in object_property_value w = none
end_object_in start_array w = none
end_object_in middle_array w = none

unfoldable pub end_object : JsonWriter → Option JsonWriter
unfolding end_object_in
end_object w = end_object_in w.mode w

unfoldable pub begin_pack : JsonWriter → JsonWriter
unfolding increment
begin_pack w = record w { pack = increment w.pack }

unfoldable pub end_pack : JsonWriter → JsonWriter
unfolding decrement
end_pack w = record w { pack = decrement w.pack }
