-- ===== src/JsonReader/Number.antt =====
-- base/json_reader.cc: `ReadNumber`, with the C library's `strtoll`.
use cheaproute.Prelude.{
  ℕ, ◌+◌, ◌-◌, ◌*◌, ◌^◌, Bool, true, false, not, ◌||◌, ◌&&◌, Option, none, some, List, [], ◌∷◌,
  ◌++◌, ◌==◌, leb, ltb, if◌then◌else◌,
}
use cheaproute.Prelude.Int.{ℤ, pos, negate}

abbrev pub is_digit : ℕ → Bool
is_digit ch = leb b'0' ch && leb ch b'9'

-- The number of a run of decimal digits, up to the first other character.
unfoldable pub digits_value : ℕ → List ℕ → ℕ
digits_value value [] = value
digits_value value (ch ∷ text) =
    let rest = digits_value (value * 10 + (ch - b'0')) text in if is_digit ch then rest else value

-- The result of `strtoll` in base 10, held within an `int64_t`, and whether it set ERANGE.
unfoldable pub clamp_positive : ℕ → ℤ × Bool
clamp_positive v = if ltb v (2 ^ 63) then (pos v, false) else (pos (2 ^ 63 - 1), true)

unfoldable pub clamp_negative : ℕ → ℤ × Bool
clamp_negative v = if leb v (2 ^ 63) then (negate v, false) else (negate (2 ^ 63), true)

unfoldable pub strtoll : List ℕ → ℤ × Bool
strtoll [] = (pos 0, false)
strtoll (ch ∷ text) =
    if ch == b'-'
    then clamp_negative (digits_value 0 text)
    else clamp_positive (digits_value 0 (ch ∷ text))

-- The local variables of the loop, with `str_value_`.
pub record Scan : Type 0 where
  pub text : List ℕ
  pub seen_dot : Bool
  pub seen_exponent : Bool
  pub seen_initial_zero : Bool

-- The characters that end a number.
abbrev pub ends_number : ℕ → Bool
ends_number ch =
    ch == b'}'
    || (ch == b']' || (ch == b',' || (ch == b'\r' || (ch == b'\n' || (ch == b'\t' || ch == b' ')))))

unfoldable pub push : ℕ → Scan → Scan
push ch s = record s { text = s.text ++ ch ∷ [] }

-- One pass through the `switch` for a character that does not end the number; `first` is `i == 0`
-- and `none` an error. Any other character changes nothing.
unfoldable pub scan_digit : Bool → ℕ → Scan → Option Scan
scan_digit first ch s =
    if ch == b'0' && first
    then some (push ch (record s { seen_initial_zero = true }))
    else if s.seen_initial_zero && not s.seen_dot
    then none
    else some (push ch s)

unfoldable pub scan_char : Bool → ℕ → Scan → Option Scan
scan_char first ch s =
    if ch == b'.'
    then (if s.seen_dot || s.seen_exponent
        then none
        else some (push ch (record s { seen_dot = true })))
    else if ch == b'e' || ch == b'E'
    then some (push ch (record s { seen_exponent = true }))
    else if is_digit ch
    then scan_digit first ch s
    else some s

-- The scan ends before a character that ends the number, or at the end of the stream; or it fails.
pub data NumberOutcome : Type 0 where
  scanned : Scan → List ℕ → NumberOutcome
  bad_number : Scan → List ℕ → NumberOutcome

-- The rounds from the second on: the character is peeked at, and read when it does not end the
-- number.
unfoldable pub number_loop : Scan → List ℕ → NumberOutcome
number_loop s [] = scanned s []
number_loop s (ch ∷ input) =
    if ends_number ch then scanned s (ch ∷ input) else elim (scan_char false ch s) [
      | none ↦ bad_number s (ch ∷ input)
      | some s' ↦ number_loop s' input
    ]

-- The first round, whose character has been read already.
unfoldable pub first_round : Scan → ℕ → List ℕ → NumberOutcome
first_round s ch input =
    if ends_number ch
    then scanned s input
    else elim (scan_char true ch s) [ none ↦ bad_number s input | some s' ↦ number_loop s' input ]

abbrev pub empty_scan : Scan
empty_scan = record {
  text = [];
  seen_dot = false;
  seen_exponent = false;
  seen_initial_zero = false;
}

-- After a minus sign the first round's character is read from the stream.
unfoldable pub signed_number : List ℕ → NumberOutcome
signed_number [] = scanned (record empty_scan { text = b'-' ∷ [] }) []
signed_number (ch ∷ input) = first_round (record empty_scan { text = b'-' ∷ [] }) ch input

-- The loop of `ReadNumber`.
unfoldable pub scan_number : ℕ → List ℕ → NumberOutcome
scan_number initial_char input =
    if initial_char == b'-' then signed_number input else first_round empty_scan initial_char input
