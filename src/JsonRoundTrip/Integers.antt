-- ===== src/JsonRoundTrip/Integers.antt =====
-- Integers: `ReadNumber` after `WriteInteger`.
use cheaproute.Prelude.{
  subst, ℕ, ◌+◌, ◌^◌, ◌<◌, ◌≡◌, refl, sym, ◌∙◌, ap, Bool, true, false, List, [], ◌∷◌, ◌++◌, arith,
  lt→ltb, le→leb,
}
use native.Mathlib.Numerals.{add-one}
use cheaproute.Prelude.Int.{ℤ, pos, negsuc}
use cheaproute.JsonReader.Number.{
  digits_value, clamp_positive, clamp_negative, strtoll, NumberOutcome, scan_number,
}
use cheaproute.JsonWriter.Text.{decimal, signed_decimal}
use cheaproute.JsonRoundTrip.Digits.{IsDigit, digits_value-digits}
use cheaproute.JsonRoundTrip.Scans.{EndsNumber, Scanned, digit-ne-minus, scan_number-decimal}
use cheaproute.JsonReader.{number_answer, convert_integer, read_number}
use cheaproute.JsonReader.State.{JsonReader, integer}

digits_value-decimal : (n : ℕ) → n < 10 ^ 20 → digits_value 0 (decimal n) ≡ n
unfolding decimal
digits_value-decimal n h = digits_value-digits 20 n [] h (omega arith) ∙ unfold digits_value in refl

-- An integer that an `int64_t` holds.
abbrev pub IsInt64 : ℤ → Type 0
IsInt64 (pos n) = n < 2 ^ 63
IsInt64 (negsuc n) = n < 2 ^ 63

strtoll-digits :
    (ch : ℕ) (rest : List ℕ)
    → IsDigit ch
    → strtoll (ch ∷ rest) ≡ clamp_positive (digits_value 0 (ch ∷ rest))
unfolding strtoll
strtoll-digits ch rest d = rw (digit-ne-minus ch d)

strtoll-decimal :
    (n : ℕ) → n < 10 ^ 20 → strtoll (decimal n) ≡ clamp_positive (digits_value 0 (decimal n))
strtoll-decimal n h =
    let (ch, rest, e, d, s, t) = scan_number-decimal n [] h tt in
    subst (λ t. strtoll t ≡ clamp_positive (digits_value 0 t)) (sym e) (strtoll-digits ch rest d)

-- `strtoll` reads the text of every `int64_t` back, with no error.
pub strtoll-signed_decimal : (v : ℤ) → IsInt64 v → strtoll (signed_decimal v) ≡ (v, false)
unfolding signed_decimal
strtoll-signed_decimal (pos n) h =
    strtoll-decimal n (omega arith)
    ∙ ap clamp_positive (digits_value-decimal n (omega arith))
    ∙ unfold clamp_positive in rw (lt→ltb n (2 ^ 63) h)
strtoll-signed_decimal (negsuc n) h =
    unfold strtoll in
    (ap clamp_negative (digits_value-decimal (n + 1) (omega arith))
      ∙ unfold clamp_negative in rw (le→leb (n + 1) (2 ^ 63) (omega arith), add-one))

-- The reader after an integer.
abbrev pub read_integer : ℤ → List ℕ → List ℕ → JsonReader → JsonReader
read_integer v text tail r = record r {
  stream = tail;
  str_value = text;
  token_type = integer;
  int_value = v;
}

-- `ReadNumber`'s conversion of a text in which neither a dot nor an exponent was seen.
number_answer-Scanned :
    (strtod_overflows : List ℕ → Bool) (ch : ℕ) (text tail : List ℕ) (v : ℤ) (o : NumberOutcome)
    (r : JsonReader)
    → Scanned (ch ∷ text) tail o
    → strtoll (ch ∷ text) ≡ (v, false)
    → number_answer strtod_overflows r o ≡ (true, read_integer v (ch ∷ text) tail r)
unfolding number_answer convert_integer
number_answer-Scanned strtod_overflows ch text tail v o r (z, e) h = rw (e, h)

-- `ReadNumber`, called with the first character of what `WriteInteger` prints for an `int64_t` and
-- with the others at the front of the stream, sets that integer and the token, and leaves the
-- stream at what follows, if that ends a number.
pub read_number-signed_decimal :
    (strtod_overflows : List ℕ → Bool) (v : ℤ) (tail : List ℕ) (r : JsonReader)
    → IsInt64 v
    → EndsNumber tail
    → (ch : ℕ) × (text : List ℕ) × (signed_decimal v ≡ ch ∷ text)
      × (read_number strtod_overflows ch (record r { stream = text ++ tail })
          ≡ (true, read_integer v (ch ∷ text) tail r))
unfolding read_number signed_decimal
read_number-signed_decimal strtod_overflows (pos n) tail r h k =
    let (ch, rest, e, d, s, t) = scan_number-decimal n tail (omega arith) k in
    (
      ch,
      rest,
      e,
      number_answer-Scanned strtod_overflows ch rest tail (pos n) _
          (record r { stream = rest ++ tail })
          (subst (λ u. Scanned u tail (scan_number ch (rest ++ tail))) e s)
          (ap strtoll (sym e) ∙ strtoll-signed_decimal (pos n) h),
    )
read_number-signed_decimal strtod_overflows (negsuc n) tail r h k =
    let (ch, rest, e, d, s, t) = scan_number-decimal (n + 1) tail (omega arith) k in
    (
      b'-',
      ch ∷ rest,
      ap (λ u. b'-' ∷ u) e,
      number_answer-Scanned strtod_overflows b'-' (ch ∷ rest) tail (negsuc n) _
          (record r { stream = ch ∷ rest ++ tail })
          (subst (λ u. Scanned (b'-' ∷ u) tail (scan_number b'-' (ch ∷ (rest ++ tail)))) e t)
          (ap (λ u. strtoll (b'-' ∷ u)) (sym e) ∙ strtoll-signed_decimal (negsuc n) h),
    )
