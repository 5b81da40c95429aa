-- ===== src/Packet/Serialize/DataCalls.antt =====
-- The calls that `SerializePacket` makes of its writer for the data behind the headers fit together.
use cheaproute.Prelude.{
  All, All-append, IsByte, ◌<◌, ascii, true, false, not, Bool, ◌&&◌, if_rule, if◌then◌else◌, refl,
  ℕ, ◌≤◌, zero, suc, List, [], ◌∷◌, ◌++◌, ◌==◌, ltb, elim_rule, arith, length, ◌-◌, length-drop,
  take, drop, ◌≡◌,
}
use cheaproute.Prelude.Int.{ℤ}
use cheaproute.Hex.{format_hex}
use cheaproute.JsonWriter.{JsonWriterMode, object_property_name}
use cheaproute.Packet.Writing.{◌>>◌, property, string, open_object, open_array}
use cheaproute.JsonRoundTrip.Escapes.{IsChar}
use cheaproute.Packet.Texts.{is_chars, format_hex-All, All-take, All-drop}
use Prim.Native.String.{String}
use cheaproute.JsonWriter.Values.{Value, named}
use cheaproute.Packet.Landing.{at, empty_object, properties}
use cheaproute.Packet.Moves.{
  Moves, ◌▹◌, text-Moves, string-Moves, open_object-Moves, close_object-Moves, property-Moves,
}
use cheaproute.Packet.Moves.Arrays.{
  Fills, opened, filled, closed, entered, Leaves, done-Fills, item-Fills, then-Fills, if-Fills,
}
use cheaproute.Packet.Serialize.Bytes.{
  is_plain_text, text_lines, write_as_text, hex_lines, write_as_hex, write_bytes,
}

plain_byte :
    (b : ℕ)
    → (ltb b b' ' && (not (b == b'\r') && (not (b == b'\n') && not (b == b'\t')))) ≡ false
    → 0 < b
plain_byte zero e = cc
plain_byte (suc b) e = omega arith

-- Plain text holds no zero byte.
pub plain-All : (bytes : List ℕ) → is_plain_text bytes ≡ true → All IsByte bytes → All IsChar bytes
unfolding is_plain_text
plain-All [] e h = tt
plain-All (b ∷ bytes) e h =
    let (below, rest) =
      passed (ltb b b' ' && (not (b == b'\r') && (not (b == b'\n') && not (b == b'\t')))) e in
    ((plain_byte b below, h.0), plain-All bytes rest h.1)
  where
    passed :
        (c : Bool)
        → (if c then false else is_plain_text bytes) ≡ true
        → (c ≡ false) × (is_plain_text bytes ≡ true)
    passed true e = cc
    passed false e = (refl, e)

text_lines-Fills :
    {P : Type 0} {st : List JsonWriterMode} {p : ℤ} (line bytes : List ℕ)
    → (P → All IsChar line)
    → (P → All IsChar bytes)
    → Fills P st p (text_lines line bytes)
unfolding text_lines
text_lines-Fills line [] c d =
    if-Fills (ltb 0 (length line)) (item-Fills (λ m v. text-Moves v line c)) done-Fills
text_lines-Fills {P} {st} {p} line (b ∷ bytes) c d =
    elim_rule (Fills P st p) (b == b'\n') _ _
      (λ e.
        then-Fills (item-Fills (λ m v. text-Moves v (line ++ b ∷ []) (longer c d)))
          (text_lines-Fills [] bytes (λ q. tt) (λ q. (d q).1)))
      (λ e. text_lines-Fills (line ++ b ∷ []) bytes (longer c d) (λ q. (d q).1))
  where
    longer : (P → All IsChar line) → (P → All IsChar (b ∷ bytes)) → P → All IsChar (line ++ b ∷ [])
    longer c d q = All-append IsChar line (b ∷ []) (c q) ((d q).0, tt)

hex_lines-Fills :
    {P : Type 0} {st : List JsonWriterMode} {p : ℤ} (fuel : ℕ) (bytes : List ℕ)
    → length bytes ≤ fuel
    → (P → All IsByte bytes)
    → Fills P st p (hex_lines fuel bytes)
unfolding hex_lines
hex_lines-Fills fuel [] h c = done-Fills
hex_lines-Fills zero (b ∷ bytes) h c = absurd (omega arith)
hex_lines-Fills (suc fuel) (b ∷ bytes) h c =
    then-Fills
      (item-Fills (λ m v.
        text-Moves v (format_hex (take 16 (b ∷ bytes)))
          (λ q. format_hex-All (take 16 (b ∷ bytes)) (All-take IsByte 16 (b ∷ bytes) (c q)))))
      (hex_lines-Fills fuel (drop 16 (b ∷ bytes)) (shorter (length-drop 16 (b ∷ bytes)))
        (λ q. All-drop IsByte 16 (b ∷ bytes) (c q)))
  where
    shorter :
        length (drop 16 (b ∷ bytes)) ≡ length (b ∷ bytes) - 16 → length (drop 16 (b ∷ bytes)) ≤ fuel
    shorter e = omega arith

module _ {P : Type 0} {m n : JsonWriterMode} {st : List JsonWriterMode} {p : ℤ}
    (v : Value m n) where
  opened_data :
      (type : String)
      → is_chars (ascii type) ≡ true
      → Leaves P
          (at m st p)
          (object_property_name ∷ n ∷ st)
          p
          (open_object >> property "type" >> string type >> property "data" >> open_array)
  opened_data type c =
      entered
        (open_object-Moves v
          ▹ property-Moves empty_object "type" refl
          ▹ string-Moves named type c
          ▹ property-Moves properties "data" refl)
        (opened named)

  pub write_bytes-Moves :
      (bytes : List ℕ)
      → (P → All IsByte bytes)
      → Moves P (at m st p) (at n st p) (write_bytes bytes)
  unfolding write_bytes write_as_text write_as_hex
  write_bytes-Moves bytes c =
      if_rule (Moves P (at m st p) (at n st p)) (is_plain_text bytes)
        (λ e.
          closed (
            filled (opened_data "text" refl)
              (text_lines-Fills [] bytes (λ q. tt) (λ q. plain-All bytes e (c q))))
          ▹ close_object-Moves properties)
        (λ e.
          closed
            (filled (opened_data "hex" refl) (hex_lines-Fills (length bytes) bytes (omega arith) c))
          ▹ close_object-Moves properties)
