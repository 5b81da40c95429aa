-- ===== src/JsonReader.antt =====
-- base/json_reader.h and base/json_reader.cc: the pull parser. The stream is the list of bytes
-- still to be read, which Stream/Input/Chars.antt shows a buffered stream to be. Floating-point
-- numbers are not modelled: `float_text` is what `strtod` is given, and whether it sets ERANGE is a
-- parameter of `next`.
pub mod Text
pub mod Number
pub mod State
pub mod Progress
pub mod Values
pub mod Next
use cheaproute.Prelude.{
  ℕ, Bool, true, false, not, ◌||◌, ◌&&◌, Option, none, some, List, [], ◌∷◌, ◌==◌, if◌then◌else◌,
  ascii,
}
use cheaproute.Prelude.Int.{pos}
use Text.{
  JsonError, no_error, unexpected_character, out_of_range, StringOutcome, closed, ended, broken,
  stuck, read_quoted, KeywordOutcome, matched, differs, cut, keyword_loop,
}
use Number.{Scan, NumberOutcome, scanned, bad_number, scan_number, strtoll, is_digit}
use State.{
  JsonToken, no_token, start_array, end_array, start_object, end_object, property_name,
  string_token, integer, float, boolean, null, token_eq, JsonMode, document_start, array_mode,
  object_mode, JsonReader,
}

-- What a method returns, with the new state.
abbrev Answer : Type 0
Answer = Bool × JsonReader

abbrev fail : JsonError → JsonReader → Answer
fail e r = (false, record r { error_code = e })

unfoldable pub new_reader : List ℕ → JsonReader
new_reader input = record {
  stream = input;
  error_code = no_error;
  token_type = no_token;
  mode = document_start;
  str_value = [];
  int_value = pos 0;
  float_text = [];
  bool_value = false;
  mode_stack = [];
}

unfoldable pub string_answer : JsonReader → StringOutcome → Answer
string_answer r (closed str input) = (true, record r { stream = input; str_value = str })
string_answer r (ended str) = (false, record r { stream = []; str_value = str })
string_answer r (broken e str input) = fail e (record r { stream = input; str_value = str })
string_answer r stuck = (false, r)

-- `ReadString`
unfoldable pub read_string : ℕ → JsonReader → Answer
unfolding string_answer
read_string initial_char r =
    if initial_char == b'"' || initial_char == b'\''
    then string_answer r (read_quoted initial_char r.stream)
    else fail unexpected_character (record r { str_value = [] })

unfoldable pub keyword_answer : JsonReader → KeywordOutcome → Answer
keyword_answer r (matched input) = (true, record r { stream = input })
keyword_answer r (differs input) = fail unexpected_character (record r { stream = input })
keyword_answer r cut = (false, record r { stream = [] })

-- `ReadKeyword`, whose first character has been read.
unfoldable pub read_keyword : ℕ → List ℕ → JsonReader → Answer
unfolding keyword_answer keyword_loop
read_keyword initial_char [] r = (true, r)
read_keyword initial_char (k ∷ keyword) r =
    if initial_char == k
    then keyword_answer r (keyword_loop keyword r.stream)
    else fail unexpected_character r

unfoldable pub is_empty : List ℕ → Bool
is_empty [] = true
is_empty (ch ∷ text) = false

abbrev pub is_space : ℕ → Bool
is_space ch = ch == b' ' || (ch == b'\n' || (ch == b'\r' || ch == b'\t'))

-- `SkipWhitespace`: the first other character, with what follows it.
unfoldable pub skip_whitespace : List ℕ → Option (ℕ × List ℕ)
skip_whitespace [] = none
skip_whitespace (ch ∷ input) = if is_space ch then skip_whitespace input else some (ch, input)

-- The rest of a method behind `if (!SkipWhitespace(&ch)) return false;`.
unfoldable pub skipping : JsonReader → (ℕ → JsonReader → Answer) → Answer
unfolding skip_whitespace
skipping r k = elim (skip_whitespace r.stream) [
  | none ↦ (false, record r { stream = [] })
  | some (ch, input) ↦ k ch (record r { stream = input })
]

-- `PopMode`
unfoldable pub pop_mode : List JsonMode → JsonReader → Answer
pop_mode [] r = fail unexpected_character r
pop_mode (m ∷ modes) r = (true, record r { mode = m; mode_stack = modes })

unfoldable pub expect_colon : Answer → Answer
unfolding skipping
expect_colon (false, r) = (false, r)
expect_colon (true, r) =
    skipping r (λ ch r'. if ch == b':' then (true, r') else fail unexpected_character r')

-- The name of a property with the colon behind it.
unfoldable pub read_property_name : ℕ → JsonReader → Answer
unfolding read_string expect_colon
read_property_name ch r = expect_colon (read_string ch (record r { token_type = property_name }))

-- The conversion to an integer at the end of `ReadNumber`.
unfoldable pub convert_integer : List ℕ → JsonReader → Answer
convert_integer text r =
    let (value, erange) = strtoll text in
    let r' = record r { str_value = text; token_type = integer; int_value = value } in
    if erange then fail out_of_range r' else (true, r')

unfoldable pub open_container : JsonToken → JsonMode → JsonReader → Answer
open_container token mode r =
    (true, record r { token_type = token; mode = mode; mode_stack = r.mode ∷ r.mode_stack })

module _ (strtod_overflows : List ℕ → Bool) where
  -- The conversion to a double at the end of `ReadNumber`.
  unfoldable pub convert_float : List ℕ → JsonReader → Answer
  convert_float text r =
      let r' = record r { str_value = text; token_type = float; float_text = text } in
      if strtod_overflows text then fail out_of_range r' else (true, r')

  unfoldable pub number_answer : JsonReader → NumberOutcome → Answer
  unfolding convert_integer convert_float is_empty
  number_answer r (bad_number s input) =
      fail unexpected_character (record r { stream = input; str_value = s.text })
  number_answer r (scanned s input) =
      let r' = record r { stream = input; str_value = s.text } in
      if is_empty s.text
      then fail unexpected_character r'
      else if s.seen_exponent || s.seen_dot
      then convert_float s.text r'
      else convert_integer s.text r'

  -- `ReadNumber`
  unfoldable pub read_number : ℕ → JsonReader → Answer
  unfolding number_answer
  read_number initial_char r = number_answer r (scan_number initial_char r.stream)

  -- `ReadValue`
  unfoldable pub read_value : ℕ → JsonReader → Answer
  unfolding open_container read_string read_number read_keyword
  read_value ch r =
      if ch == b'{'
      then open_container start_object object_mode r
      else if ch == b'['
      then open_container start_array array_mode r
      else if ch == b'"' || ch == b'\''
      then read_string ch (record r { token_type = string_token })
      else if ch == b'-' || is_digit ch
      then read_number ch r
      else if ch == b'n'
      then read_keyword ch (ascii "null") (record r { token_type = null })
      else if ch == b't'
      then read_keyword ch (ascii "true") (record r { token_type = boolean; bool_value = true })
      else if ch == b'f'
      then read_keyword ch (ascii "false") (record r { token_type = boolean; bool_value = false })
      else fail unexpected_character r

  unfoldable pub next_in_array : ℕ → JsonReader → Answer
  unfolding skipping pop_mode read_value
  next_in_array ch r =
      if ch == b']'
      then pop_mode r.mode_stack (record r { token_type = end_array })
      else if token_eq r.token_type start_array
      then read_value ch r
      else if ch == b','
      then skipping r read_value
      else fail unexpected_character r

  unfoldable pub next_in_object : ℕ → JsonReader → Answer
  unfolding skipping pop_mode read_value read_property_name
  next_in_object ch r =
      if token_eq r.token_type property_name
      then read_value ch r
      else if ch == b'}'
      then pop_mode r.mode_stack (record r { token_type = end_object })
      else if token_eq r.token_type start_object
      then read_property_name ch r
      else if ch == b','
      then skipping r read_property_name
      else fail unexpected_character r

  unfoldable pub next_in : JsonMode → ℕ → JsonReader → Answer
  unfolding read_value next_in_array next_in_object
  next_in document_start ch r = read_value ch r
  next_in array_mode ch r = next_in_array ch r
  next_in object_mode ch r = next_in_object ch r

  -- `Next`
  unfoldable pub next : JsonReader → Answer
  unfolding skipping next_in
  next r = skipping r (λ ch r'. next_in r.mode ch r')
