-- ===== src/Packet/RoundTrip/DataCalls.antt =====
-- net/json_packet.cc: the calls that `SerializeBytes` makes, and those of `SerializePacket` for a UDP
-- packet.
use cheaproute.Prelude.{
  ℕ, zero, suc, ◌-◌, ◌≤◌, ◌≡◌, refl, Bool, true, false, List, [], ◌∷◌, ◌++◌, All, All-append,
  IsByte, arith, ascii, ◌==◌, ltb, length, length-drop, take, drop, if◌then◌else◌,
}
use cheaproute.Prelude.Int.{ℤ}
use Prim.Native.String.{String}
use cheaproute.Hex.{format_hex}
use cheaproute.JsonWriter.{JsonWriterMode, start_array, object_property_name}
use cheaproute.JsonWriter.Values.{Value, named}
use cheaproute.JsonRoundTrip.Escapes.{IsChar}
use cheaproute.JsonRoundTrip.Calls.{
  opens_array, closes_array, opens_object, closes_object, name, text,
}
use cheaproute.Packet.Texts.{is_chars, format_hex-All, All-take, All-drop}
use cheaproute.Packet.Landing.{at, empty_object, properties}
use cheaproute.Packet.Writing.{
  ◌>>◌, done, property, string, text as write_text, open_object, open_array,
}
use cheaproute.Packet.Serialize.Bytes.{
  is_plain_text, text_lines, write_as_text, hex_lines, write_as_hex, write_bytes,
}
use cheaproute.Packet.Serialize.DataCalls.{plain-All}
use cheaproute.Packet.RoundTrip.Says.{
  Front, Says, ◌▸◌, text-Says, string-Says, open_array-Says, open_object-Says, close_object-Says,
  property-Says, SaysItems, item-Says, no_items, then_items, filled-Says, opened-Says, closed-Says,
}

abbrev pub all_texts : List (List ℕ) → Front
all_texts [] rest = rest
all_texts (str ∷ strs) rest = text str ∷ all_texts strs rest

-- The lines that the loops write.
abbrev pub text_lines_of : List ℕ → List ℕ → List (List ℕ)
text_lines_of line [] = if ltb 0 (length line) then line ∷ [] else []
text_lines_of line (b ∷ bytes) = elim (b == b'\n') [
  | true ↦ (line ++ b ∷ []) ∷ text_lines_of [] bytes
  | false ↦ text_lines_of (line ++ b ∷ []) bytes
]

abbrev pub hex_lines_of : ℕ → List ℕ → List (List ℕ)
hex_lines_of fuel [] = []
hex_lines_of zero (b ∷ bytes) = []
hex_lines_of (suc fuel) (b ∷ bytes) =
    format_hex (take 16 (b ∷ bytes)) ∷ hex_lines_of fuel (drop 16 (b ∷ bytes))

abbrev pub data_calls : List ℕ → List (List ℕ) → Front
data_calls type lines rest =
    opens_object
    ∷ name (ascii "type")
    ∷ text type
    ∷ name (ascii "data")
    ∷ opens_array
    ∷ all_texts lines (closes_array ∷ closes_object ∷ rest)

abbrev pub bytes_calls : List ℕ → Front
bytes_calls bytes =
    if is_plain_text bytes
    then data_calls (ascii "text") (text_lines_of [] bytes)
    else data_calls (ascii "hex") (hex_lines_of (length bytes) bytes)

module _ {P : Type 0} {st : List JsonWriterMode} {p : ℤ} where
  text_item :
      (line : List ℕ)
      → (P → All IsChar line)
      → SaysItems P (λ r. text line ∷ r) st p (write_text line)
  text_item line c = item-Says (λ m v. text-Says v line c)

  text_lines-Says :
      (line bytes : List ℕ)
      → (P → All IsChar line)
      → (P → All IsChar bytes)
      → SaysItems P (all_texts (text_lines_of line bytes)) st p (text_lines line bytes)
  unfolding text_lines
  text_lines-Says line [] c d = last (ltb 0 (length line))
    where
      last :
          (some_text : Bool)
          → SaysItems P
              (all_texts (if some_text then line ∷ [] else []))
              st
              p
              (if some_text then write_text line else done)
      last true = text_item line c
      last false = no_items
  text_lines-Says line (b ∷ bytes) c d =
      next (text_lines-Says [] bytes (λ q. tt) (λ q. (d q).1))
        (text_lines-Says (line ++ b ∷ []) bytes longer (λ q. (d q).1)) (b == b'\n')
    where
      longer : P → All IsChar (line ++ b ∷ [])
      longer q = All-append IsChar line (b ∷ []) (c q) ((d q).0, tt)

      next :
          SaysItems P (all_texts (text_lines_of [] bytes)) st p (text_lines [] bytes)
          → SaysItems P
              (all_texts (text_lines_of (line ++ b ∷ []) bytes))
              st
              p
              (text_lines (line ++ b ∷ []) bytes)
          → (ends_line : Bool)
          → SaysItems P
              (all_texts (elim ends_line [
                | true ↦ (line ++ b ∷ []) ∷ text_lines_of [] bytes
                | false ↦ text_lines_of (line ++ b ∷ []) bytes
              ]))
              st
              p
              (elim ends_line [
                | true ↦ write_text (line ++ b ∷ []) >> text_lines [] bytes
                | false ↦ text_lines (line ++ b ∷ []) bytes
              ])
      next x y true = then_items (text_item (line ++ b ∷ []) longer) x
      next x y false = y

  hex_lines-Says :
      (fuel : ℕ) (bytes : List ℕ)
      → length bytes ≤ fuel
      → (P → All IsByte bytes)
      → SaysItems P (all_texts (hex_lines_of fuel bytes)) st p (hex_lines fuel bytes)
  unfolding hex_lines
  hex_lines-Says fuel [] h c = no_items
  hex_lines-Says zero (b ∷ bytes) h c = absurd (omega arith)
  hex_lines-Says (suc fuel) (b ∷ bytes) h c =
      then_items
        (text_item (format_hex (take 16 (b ∷ bytes)))
          (λ q. format_hex-All (take 16 (b ∷ bytes)) (All-take IsByte 16 (b ∷ bytes) (c q))))
        (hex_lines-Says fuel (drop 16 (b ∷ bytes)) (shorter (length-drop 16 (b ∷ bytes)))
          (λ q. All-drop IsByte 16 (b ∷ bytes) (c q)))
    where
      shorter :
          length (drop 16 (b ∷ bytes)) ≡ length (b ∷ bytes) - 16
          → length (drop 16 (b ∷ bytes)) ≤ fuel
      shorter e = omega arith

module _ {P : Type 0} {m n : JsonWriterMode} {st : List JsonWriterMode} {p : ℤ}
    (v : Value m n) where
  opened_data :
      (type : String)
      → is_chars (ascii type) ≡ true
      → Says P
          (λ r.
            opens_object
            ∷ name (ascii "type")
            ∷ text (ascii type)
            ∷ name (ascii "data")
            ∷ opens_array
            ∷ r)
          (at m st p)
          (at start_array (object_property_name ∷ n ∷ st) p)
          (open_object >> property "type" >> string type >> property "data" >> open_array)
  opened_data type c =
      open_object-Says v
      ▸ property-Says empty_object "type" refl
      ▸ string-Says named type c
      ▸ property-Says properties "data" refl
      ▸ open_array-Says named

  pub write_bytes-Says :
      (bytes : List ℕ)
      → (P → All IsByte bytes)
      → Says P (bytes_calls bytes) (at m st p) (at n st p) (write_bytes bytes)
  unfolding write_bytes write_as_text write_as_hex
  write_bytes-Says bytes c = choose (is_plain_text bytes) refl
    where
      choose :
          (plain : Bool)
          → is_plain_text bytes ≡ plain
          → Says P
              (if plain
                then data_calls (ascii "text") (text_lines_of [] bytes)
                else data_calls (ascii "hex") (hex_lines_of (length bytes) bytes))
              (at m st p)
              (at n st p)
              (if plain then write_as_text bytes else write_as_hex bytes)
      choose true e =
          closed-Says (
            filled-Says (opened-Says (opened_data "text" refl))
              (text_lines-Says [] bytes (λ q. tt) (λ q. plain-All bytes e (c q))))
          ▸ close_object-Says properties
      choose false e =
          closed-Says (
            filled-Says (opened-Says (opened_data "hex" refl))
              (hex_lines-Says (length bytes) bytes (omega arith) c))
          ▸ close_object-Says properties
