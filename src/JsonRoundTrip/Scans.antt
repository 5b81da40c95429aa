-- ===== src/JsonRoundTrip/Scans.antt =====
-- base/json_reader.cc: the loop of `ReadNumber` on the text of an integer.
use cheaproute.Prelude.{
  subst, ℕ, ◌^◌, ◌<◌, ◌≡◌, refl, sym, ◌∙◌, ap, Bool, true, false, some, List, [], ◌∷◌, ◌++◌,
  append-nil, append_assoc, arith, ◌==◌, ltb, ltb→lt, ltb_false→le, ne→==_false, inl, inr,
  Bool-cases, All,
}
use cheaproute.JsonReader.Number.{
  Scan, ends_number, push, scan_digit, scan_char, NumberOutcome, scanned, number_loop, empty_scan,
  first_round, signed_number, scan_number,
}
use cheaproute.JsonWriter.Text.{decimal}
use cheaproute.JsonRoundTrip.Digits.{IsDigit, digit_tests, LeadsWell, digits-Printed}

ends_number-digit : (ch : ℕ) → IsDigit ch → ends_number ch ≡ false
ends_number-digit ch (h, k) = rw (
  ne→==_false ch b'}' (omega arith),
  ne→==_false ch b']' (omega arith),
  ne→==_false ch b',' (omega arith),
  ne→==_false ch b'\r' (omega arith),
  ne→==_false ch b'\n' (omega arith),
  ne→==_false ch b'\t' (omega arith),
  ne→==_false ch b' ' (omega arith),
)

scan_char-digit :
    (first : Bool) (ch : ℕ) (s : Scan) → IsDigit ch → scan_char first ch s ≡ scan_digit first ch s
unfolding scan_char
scan_char-digit first ch s (h, k) = rw (
  ne→==_false ch b'.' (omega arith),
  ne→==_false ch b'e' (omega arith),
  ne→==_false ch b'E' (omega arith),
  digit_tests ch (h, k),
)

scan_digit-later :
    (ch : ℕ) (s : Scan) → s.seen_initial_zero ≡ false → scan_digit false ch s ≡ some (push ch s)
unfolding scan_digit
scan_digit-later ch s e = ground arith

scan_digit-leading :
    (ch : ℕ) (s : Scan)
    → b'0' < ch
    → s.seen_initial_zero ≡ false
    → scan_digit true ch s ≡ some (push ch s)
unfolding scan_digit
scan_digit-leading ch s h e = ground arith

scan_digit-zero :
    (ch : ℕ) (s : Scan)
    → ch ≡ b'0'
    → scan_digit true ch s ≡ some (push ch (record s { seen_initial_zero = true }))
unfolding scan_digit
scan_digit-zero ch s h = ground arith

number_loop_digit :
    (ch : ℕ) (rest : List ℕ) (s : Scan)
    → IsDigit ch
    → s.seen_initial_zero ≡ false
    → number_loop s (ch ∷ rest) ≡ number_loop (push ch s) rest
unfolding number_loop
number_loop_digit ch rest s d e =
    rw (ends_number-digit ch d, scan_char-digit false ch s d, scan_digit-later ch s e, number_loop)

-- The scan of a run of digits behind the first character.
number_loop-digits :
    (ds : List ℕ) (s : Scan) (tail : List ℕ)
    → All IsDigit ds
    → s.seen_initial_zero ≡ false
    → number_loop s (ds ++ tail) ≡ number_loop (record s { text = s.text ++ ds }) tail
unfolding push
number_loop-digits [] s tail h e =
    ap (λ t. number_loop (record s { text = t }) tail) (sym (append-nil s.text))
number_loop-digits (d ∷ ds) s tail h e =
    number_loop_digit d (ds ++ tail) s h.0 e
    ∙ number_loop-digits ds (push d s) tail h.1 e
    ∙ ap (λ t. number_loop (record s { text = t }) tail) (append_assoc s.text (d ∷ []) ds)

-- The stream ends, or goes on with a character that ends a number.
abbrev pub EndsNumber : List ℕ → Type 0
EndsNumber [] = Unit
EndsNumber (ch ∷ tail) = ends_number ch ≡ true

number_loop-end : (s : Scan) (tail : List ℕ) → EndsNumber tail → number_loop s tail ≡ scanned s tail
unfolding number_loop
number_loop-end s [] h = refl
number_loop-end s (ch ∷ tail) h = rw h

first_round-leading :
    (ch : ℕ) (rest : List ℕ) (s : Scan) (tail : List ℕ)
    → IsDigit ch
    → All IsDigit rest
    → b'0' < ch
    → s.seen_initial_zero ≡ false
    → EndsNumber tail
    → first_round s ch (rest ++ tail) ≡ scanned (record s { text = s.text ++ ch ∷ rest }) tail
unfolding first_round push
first_round-leading ch rest s tail d ds leads e h =
    rw
      (
        ends_number-digit ch d,
        scan_char-digit true ch s d,
        scan_digit-leading ch s leads e,
        first_round,
      )
      (number_loop-digits rest (push ch s) tail ds e
        ∙ number_loop-end (record s { text = (s.text ++ ch ∷ []) ++ rest }) tail h
        ∙ ap (λ t. scanned (record s { text = t }) tail) (append_assoc s.text (ch ∷ []) rest))

first_round-zero :
    (ch : ℕ) (s : Scan) (tail : List ℕ)
    → IsDigit ch
    → ch ≡ b'0'
    → EndsNumber tail
    → first_round s ch tail
      ≡ scanned (record s { text = s.text ++ ch ∷ []; seen_initial_zero = true }) tail
unfolding first_round push
first_round-zero ch s tail d e h =
    rw (ends_number-digit ch d, scan_char-digit true ch s d, scan_digit-zero ch s e, first_round)
      (number_loop-end (push ch (record s { seen_initial_zero = true })) tail h)

-- The first digit, which marks a leading zero only where no digit follows.
first_round-number :
    (ch : ℕ) (rest : List ℕ) (s : Scan) (tail : List ℕ)
    → IsDigit ch
    → All IsDigit rest
    → LeadsWell ch rest
    → s.seen_initial_zero ≡ false
    → EndsNumber tail
    → (z : Bool) × (first_round s ch (rest ++ tail)
        ≡ scanned (record s { text = s.text ++ ch ∷ rest; seen_initial_zero = z }) tail)
first_round-number ch rest s tail d ds (inl leads) e h =
    (s.seen_initial_zero, first_round-leading ch rest s tail d ds leads e h)
first_round-number ch rest s tail d ds (inr alone) e h = elim (Bool-cases (ltb b'0' ch)) [
  | inl leads ↦
      (s.seen_initial_zero, first_round-leading ch rest s tail d ds (ltb→lt b'0' ch leads) e h)
  | inr zero_digit ↦ (
    true,
    rw alone (first_round-zero ch s tail d (omega (arith, ltb_false→le b'0' ch zero_digit)) h),
  )
]

-- What `ReadNumber` is left with after the text of an integer: the whole text, with no dot and no
-- exponent seen.
abbrev pub Scanned : List ℕ → List ℕ → NumberOutcome → Type 0
Scanned text tail o =
    (z : Bool) × (o
      ≡ scanned
          (record { text = text; seen_dot = false; seen_exponent = false; seen_initial_zero = z })
          tail)

pub digit-ne-minus : (ch : ℕ) → IsDigit ch → (ch == b'-') ≡ false
digit-ne-minus ch (h, k) = ne→==_false ch b'-' (omega arith)

-- The first character of an integer's text, and the others.
abbrev pub Opens : ℕ → List ℕ → Type 0
Opens n tail =
    (ch : ℕ) × (rest : List ℕ) × (decimal n ≡ ch ∷ rest)
    × IsDigit ch
    × Scanned (decimal n) tail (scan_number ch (rest ++ tail))
    × Scanned (b'-' ∷ decimal n) tail (scan_number b'-' (ch ∷ (rest ++ tail)))

scan_number-plain :
    (ch : ℕ) (rest tail : List ℕ)
    → IsDigit ch
    → All IsDigit rest
    → LeadsWell ch rest
    → EndsNumber tail
    → Scanned (ch ∷ rest) tail (scan_number ch (rest ++ tail))
unfolding scan_number
scan_number-plain ch rest tail d ds l h =
    rw (digit-ne-minus ch d) (first_round-number ch rest empty_scan tail d ds l refl h)

scan_number-minus :
    (ch : ℕ) (rest tail : List ℕ)
    → IsDigit ch
    → All IsDigit rest
    → LeadsWell ch rest
    → EndsNumber tail
    → Scanned (b'-' ∷ ch ∷ rest) tail (scan_number b'-' (ch ∷ (rest ++ tail)))
unfolding scan_number signed_number
scan_number-minus ch rest tail d ds l h =
    first_round-number ch rest (record empty_scan { text = b'-' ∷ [] }) tail d ds l refl h

pub scan_number-decimal : (n : ℕ) (tail : List ℕ) → n < 10 ^ 20 → EndsNumber tail → Opens n tail
unfolding decimal
scan_number-decimal n tail h k =
    let (ch, rest, e, d, ds, l, p) = digits-Printed 20 n [] h (omega arith) in
    let e' : decimal n ≡ ch ∷ rest = e ∙ ap (λ t. ch ∷ t) (append-nil rest) in
    (
      ch,
      rest,
      e',
      d,
      subst (λ t. Scanned t tail (scan_number ch (rest ++ tail))) (sym e')
          (scan_number-plain ch rest tail d ds l k),
      subst (λ t. Scanned (b'-' ∷ t) tail (scan_number b'-' (ch ∷ (rest ++ tail)))) (sym e')
          (scan_number-minus ch rest tail d ds l k),
    )
