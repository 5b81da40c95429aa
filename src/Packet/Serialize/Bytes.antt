-- ===== src/Packet/Serialize/Bytes.antt =====
-- net/json_packet.cc: `IsPlainText`, `SerializeBytesAsText`, `SerializeBytesAsHex` and
-- `SerializeBytes`.
use cheaproute.Prelude.{
  ℕ, zero, suc, Bool, true, false, not, ◌&&◌, List, [], ◌∷◌, ◌++◌, ◌==◌, ltb, if◌then◌else◌, length,
  take, drop,
}
use cheaproute.Hex.{format_hex}
use cheaproute.Packet.Writing.{
  Action, out_of_fuel, ◌>>◌, done, property, string, text, open_array, close_array, open_object,
  close_object,
}

-- `IsPlainText`
unfoldable pub is_plain_text : List ℕ → Bool
is_plain_text [] = true
is_plain_text (b ∷ bytes) =
    if ltb b b' ' && (not (b == b'\r') && (not (b == b'\n') && not (b == b'\t')))
    then false
    else is_plain_text bytes

-- The lines that the loop of `SerializeBytesAsText` writes, the line begun so far being `line`.
unfoldable pub text_lines : List ℕ → List ℕ → Action
text_lines line [] = if ltb 0 (length line) then text line else done
text_lines line (b ∷ bytes) = elim (b == b'\n') [
  | true ↦ text (line ++ b ∷ []) >> text_lines [] bytes
  | false ↦ text_lines (line ++ b ∷ []) bytes
]

unfoldable pub write_as_text : List ℕ → Action
unfolding text_lines
write_as_text bytes =
    open_object
    >> property "type"
    >> string "text"
    >> property "data"
    >> open_array
    >> text_lines [] bytes
    >> close_array
    >> close_object

-- The loop of `SerializeBytesAsHex`.
unfoldable pub hex_lines : ℕ → List ℕ → Action
hex_lines fuel [] = done
hex_lines zero (b ∷ bytes) = λ w. out_of_fuel
hex_lines (suc fuel) (b ∷ bytes) =
    text (format_hex (take 16 (b ∷ bytes))) >> hex_lines fuel (drop 16 (b ∷ bytes))

-- Each round takes a byte at least.
unfoldable pub write_as_hex : List ℕ → Action
unfolding hex_lines
write_as_hex bytes =
    open_object
    >> property "type"
    >> string "hex"
    >> property "data"
    >> open_array
    >> hex_lines (length bytes) bytes
    >> close_array
    >> close_object

-- `SerializeBytes`
unfoldable pub write_bytes : List ℕ → Action
unfolding write_as_text write_as_hex is_plain_text
write_bytes bytes = if is_plain_text bytes then write_as_text bytes else write_as_hex bytes
