-- ===== src/Tests/Json.antt =====
-- base/json_reader.cc and base/json_writer.cc on concrete inputs.
use cheaproute.Prelude.{
  ℕ, zero, suc, ◌-◌, ◌≡◌, refl, Bool, true, false, none, some, List, [], ◌∷◌, ◌++◌, ascii, length,
  arith, if◌then◌else◌,
}
use cheaproute.Utf8.{utf8}
use cheaproute.Utf8.RoundTrip.{decode, decode-utf8, is_surrogate}
use cheaproute.JsonReader.{next, new_reader}
use cheaproute.JsonReader.Text.{read_quoted, escape, after_letter, escaped_char}
use cheaproute.JsonReader.Number.{
  strtoll, scan_number, first_round, scan_char, scan_digit, number_loop, push, clamp_positive,
  digits_value, signed_number, clamp_negative,
}
use cheaproute.JsonReader.State.{
  JsonReader, JsonToken, start_object, property_name, start_array, integer, string_token, end_array,
  end_object,
}
use cheaproute.JsonReader.Next.{next-Goes}
use cheaproute.JsonReader.Values.{IsNested, Goes}
use cheaproute.JsonWriter.Text.{quoted}
use cheaproute.JsonRoundTrip.Strings.{quoted-zero}
use cheaproute.JsonReader.State.{array_mode}
use cheaproute.JsonRoundTrip.Values.{Before, after_item, next-quoted}
use cheaproute.JsonRoundTrip.Scans.{EndsNumber}

abbrev no_overflow : List ℕ → Bool
no_overflow text = false

-- The tokens of the calls of `Next` up to the first that fails.
tokens : ℕ → JsonReader → List JsonToken
unfolding next
tokens zero r = []
tokens (suc n) r =
    let a = next no_overflow r in elim a.0 [ true ↦ a.1.token_type ∷ tokens n a.1 | false ↦ [] ]

abbrev document : List ℕ
document = ascii " {\"ip\" : [1, -20,'a\\n']} "

tokens_of_document :
    tokens 10 (new_reader document)
    ≡ start_object ∷ property_name ∷ start_array ∷ integer ∷ integer ∷ string_token ∷ end_array
      ∷ end_object ∷ []
unfolding tokens new_reader read_quoted scan_number first_round scan_char scan_digit number_loop
    push strtoll clamp_positive digits_value signed_number clamp_negative escape after_letter
    escaped_char
tokens_of_document = refl

new_reader-IsNested : IsNested (new_reader document)
unfolding new_reader
new_reader-IsNested = tt

next-Goes_example :
    Goes (length (new_reader document).stream - 1) (next no_overflow (new_reader document))
next-Goes_example = next-Goes no_overflow (new_reader document) new_reader-IsNested

abbrev sample : List ℕ
sample = ascii "a\n\"\\" ++ 233 ∷ []

quoted-zero_example : quoted (ascii "ab" ++ 0 ∷ ascii "cd") ≡ quoted (ascii "ab")
quoted-zero_example =
    quoted-zero (ascii "ab") (ascii "cd")
      ((omega arith, omega arith), ((omega arith, omega arith), tt))

decode-utf8_example : decode (utf8 0x20ac) ≡ (if is_surrogate 0x20ac then none else some 0x20ac)
decode-utf8_example = decode-utf8 0x20ac (omega arith)

ends_at_comma : EndsNumber (ascii ",2")
ends_at_comma = refl

-- A comma behind an item, with white space around it.
after_integer : Before array_mode integer (ascii " ,\n")
after_integer = after_item integer (ascii " ") (ascii "\n") refl (refl, tt) (refl, tt)

next-quoted_example :
    next no_overflow (record (new_reader []) {
      stream = ascii " ,\n" ++ (quoted sample ++ ascii "]");
      mode = array_mode;
      token_type = integer;
    })
    ≡ (
      true,
      record (new_reader []) {
        stream = ascii "]";
        mode = array_mode;
        token_type = string_token;
        str_value = sample;
      },
    )
next-quoted_example = next-quoted no_overflow sample (ascii "]") (new_reader []) after_integer (
  (omega arith, omega arith),
  (
    (omega arith, omega arith),
    ((omega arith, omega arith), ((omega arith, omega arith), ((omega arith, omega arith), tt))),
  ),
)
