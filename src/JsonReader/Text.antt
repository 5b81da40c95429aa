-- ===== src/JsonReader/Text.antt =====
-- base/json_reader.cc: `ReadString`, `ReadUnicodeEscapeCharacter` and `ReadKeyword`, and
-- `JsonError`.
use cheaproute.Prelude.{
  ℕ, zero, suc, ◌*◌, ◌%◌, true, false, ◌||◌, Option, none, some, List, [], ◌∷◌, ◌++◌, ◌==◌,
  if◌then◌else◌, bit_or, length,
}
use cheaproute.Hex.{hex_value}
use cheaproute.Utf8.{utf8}

pub data JsonError : Type 0 where
  no_error invalid_unicode_escape_sequence invalid_escape_sequence : JsonError
  unexpected_character out_of_range : JsonError

-- How `ReadString` ends: with `true`, or with `false` at the end of the stream or with an error;
-- with the string so far and the bytes left. `stuck` is no outcome of the code: it says that the
-- fuel ran out.
pub data StringOutcome : Type 0 where
  closed : List ℕ → List ℕ → StringOutcome
  ended : List ℕ → StringOutcome
  broken : JsonError → List ℕ → List ℕ → StringOutcome
  stuck : StringOutcome

-- `ReadUnicodeEscapeCharacter`
pub data UnicodeOutcome : Type 0 where
  character : ℕ → List ℕ → UnicodeOutcome
  no_digit : List ℕ → UnicodeOutcome
  no_more : UnicodeOutcome

unfoldable pub unicode_loop : ℕ → ℕ → List ℕ → UnicodeOutcome
unicode_loop zero value input = character value input
unicode_loop (suc rounds) value [] = no_more
unicode_loop (suc rounds) value (ch ∷ input) = elim (hex_value (ch % 256)) [
  | none ↦ no_digit input
  | some digit ↦ unicode_loop rounds (bit_or (value * 16) digit) input
]

-- After a backslash: the loop goes on with a longer string, or ends.
pub data EscapeOutcome : Type 0 where
  next : List ℕ → List ℕ → EscapeOutcome
  stop : StringOutcome → EscapeOutcome

unfoldable pub after_unicode : List ℕ → UnicodeOutcome → EscapeOutcome
after_unicode str (character value input) = next (str ++ utf8 value) input
after_unicode str (no_digit input) = stop (broken invalid_unicode_escape_sequence str input)
after_unicode str no_more = stop (ended str)

-- The character that a one-letter escape stands for.
unfoldable pub escaped_char : ℕ → Option ℕ
escaped_char ch =
    if ch == b'"' || (ch == b'/' || ch == b'\\')
    then some ch
    else if ch == b'b'
    then some 8
    else if ch == b'f'
    then some 12
    else if ch == b'n'
    then some 10
    else if ch == b'r'
    then some 13
    else if ch == b't'
    then some 9
    else none

unfoldable pub after_letter : List ℕ → List ℕ → Option ℕ → EscapeOutcome
after_letter str input none = stop (broken invalid_escape_sequence str input)
after_letter str input (some ch) = next (str ++ ch ∷ []) input

unfoldable pub escape : List ℕ → List ℕ → EscapeOutcome
escape str [] = stop (broken unexpected_character str [])
escape str (ch ∷ input) =
    if ch == b'u'
    then after_unicode str (unicode_loop 4 0 input)
    else after_letter str input (escaped_char ch)

-- The loop of `ReadString`, for the quote that opened the string.
unfoldable pub string_loop : ℕ → ℕ → List ℕ → List ℕ → StringOutcome
string_loop zero quote str input = stuck
string_loop (suc fuel) quote str [] = ended str
string_loop (suc fuel) quote str (ch ∷ input) =
    if ch == quote then closed str input else elim (ch == b'\\') [
      | false ↦ string_loop fuel quote (str ++ ch ∷ []) input
      | true ↦ elim (escape str input) [
        | next str' input' ↦ string_loop fuel quote str' input'
        | stop outcome ↦ outcome
      ]
    ]

-- Each round takes a byte at least, and one more round sees the end.
unfoldable pub read_quoted : ℕ → List ℕ → StringOutcome
unfolding string_loop
read_quoted quote input = string_loop (suc (length input)) quote [] input

-- How `ReadKeyword` ends, behind the first letter.
pub data KeywordOutcome : Type 0 where
  matched : List ℕ → KeywordOutcome
  differs : List ℕ → KeywordOutcome
  cut : KeywordOutcome

unfoldable pub keyword_loop : List ℕ → List ℕ → KeywordOutcome
keyword_loop [] input = matched input
keyword_loop (k ∷ keyword) [] = cut
keyword_loop (k ∷ keyword) (ch ∷ input) =
    if ch == k then keyword_loop keyword input else differs input
