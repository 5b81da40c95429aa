-- ===== src/JsonReader/Values.antt =====
-- What `ReadValue` leaves: no more bytes than there were, and the modes nested.
use cheaproute.Prelude.{
  ℕ, suc, ◌≤◌, ◌≡◌, refl, Bool, true, false, ◌||◌, none, some, List, [], ◌∷◌, arith, ◌==◌, if_rule,
  length, inl, inr, ◌⊎◌, Bool-cases, ascii,
}
use cheaproute.JsonReader.Text.{
  StringOutcome, closed, ended, broken, stuck, KeywordOutcome, matched, differs, cut,
}
use cheaproute.JsonReader.Number.{NumberOutcome, scanned, bad_number, is_digit, strtoll}
use cheaproute.JsonReader.Progress.{
  Within, read_quoted-Within, KeywordWithin, keyword_loop-Within, NumberWithin, scan_number-Within,
}
use cheaproute.JsonReader.State.{
  JsonMode, document_start, array_mode, object_mode, JsonReader, string_token, null, boolean,
}
use cheaproute.JsonReader.{
  string_answer, read_string, keyword_answer, read_keyword, convert_integer, convert_float,
  is_empty, number_answer, read_number, open_container, read_value, is_space, skip_whitespace,
}

-- The modes of the open containers, innermost first, with the document below them.
abbrev pub Nested : JsonMode → List JsonMode → Type 0
Nested document_start [] = Unit
Nested document_start (m ∷ modes) = ⊥
Nested array_mode [] = ⊥
Nested array_mode (m ∷ modes) = Nested m modes
Nested object_mode [] = ⊥
Nested object_mode (m ∷ modes) = Nested m modes

abbrev pub IsNested : JsonReader → Type 0
IsNested r = Nested r.mode r.mode_stack

-- At most `n` bytes are left, and the modes are nested.
abbrev pub Goes : ℕ → Bool × JsonReader → Type 0
Goes n a = (length a.1.stream ≤ n) × IsNested a.1

pub Goes-mono : (n m : ℕ) (a : Bool × JsonReader) → n ≤ m → Goes n a → Goes m a
Goes-mono n m a h (k, v) = (omega arith, v)

pub string_answer-Goes :
    (n : ℕ) (r : JsonReader) (o : StringOutcome)
    → IsNested r
    → Within n o
    → Goes n (string_answer r o)
unfolding string_answer
string_answer-Goes n r (closed str input) v h = (h, v)
string_answer-Goes n r (ended str) v h = (omega arith, v)
string_answer-Goes n r (broken e str input) v h = (h, v)
string_answer-Goes n r stuck v h = absurd h

pub read_string-Goes :
    (ch : ℕ) (r : JsonReader) → IsNested r → Goes (length r.stream) (read_string ch r)
unfolding read_string
read_string-Goes ch r v =
    if_rule (Goes (length r.stream)) (ch == b'"' || ch == b'\'')
      (λ _. string_answer-Goes (length r.stream) r _ v (read_quoted-Within ch r.stream))
      λ _. (omega arith, v)

keyword_answer-Goes :
    (n : ℕ) (r : JsonReader) (o : KeywordOutcome)
    → IsNested r
    → KeywordWithin n o
    → Goes n (keyword_answer r o)
unfolding keyword_answer
keyword_answer-Goes n r (matched input) v h = (h, v)
keyword_answer-Goes n r (differs input) v h = (h, v)
keyword_answer-Goes n r cut v h = (omega arith, v)

read_keyword-Goes :
    (ch : ℕ) (keyword : List ℕ) (r : JsonReader)
    → IsNested r
    → Goes (length r.stream) (read_keyword ch keyword r)
unfolding read_keyword
read_keyword-Goes ch [] r v = (omega arith, v)
read_keyword-Goes ch (k ∷ keyword) r v =
    if_rule (Goes (length r.stream)) (ch == k)
      (λ _. keyword_answer-Goes (length r.stream) r _ v (keyword_loop-Within keyword r.stream))
      λ _. (omega arith, v)

pub skip_whitespace_shorter :
    (input : List ℕ)
    → (skip_whitespace input ≡ none)
      ⊎ ((p : ℕ × List ℕ) × (skip_whitespace input ≡ some p) × (suc (length p.1) ≤ length input))
unfolding skip_whitespace
skip_whitespace_shorter [] = inl refl
skip_whitespace_shorter (ch ∷ input) = elim (Bool-cases (is_space ch)) [
  | inl space ↦ rw space (elim (skip_whitespace_shorter input) [
    | inl e ↦ inl e
    | inr (p, e, h) ↦ inr (p, e, omega arith)
  ])
  | inr other ↦ rw other (inr ((ch, input), refl, omega arith))
]

module _ (strtod_overflows : List ℕ → Bool) where
  convert_integer-Goes :
      (n : ℕ) (text : List ℕ) (r : JsonReader)
      → IsNested r
      → length r.stream ≤ n
      → Goes n (convert_integer text r)
  unfolding convert_integer
  convert_integer-Goes n text r v h = if_rule (Goes n) (strtoll text).1 (λ _. (h, v)) λ _. (h, v)

  convert_float-Goes :
      (n : ℕ) (text : List ℕ) (r : JsonReader)
      → IsNested r
      → length r.stream ≤ n
      → Goes n (convert_float strtod_overflows text r)
  unfolding convert_float
  convert_float-Goes n text r v h =
      if_rule (Goes n) (strtod_overflows text) (λ _. (h, v)) λ _. (h, v)

  number_answer-Goes :
      (n : ℕ) (r : JsonReader) (o : NumberOutcome)
      → IsNested r
      → NumberWithin n o
      → Goes n (number_answer strtod_overflows r o)
  unfolding number_answer
  number_answer-Goes n r (bad_number s input) v h = (h, v)
  number_answer-Goes n r (scanned s input) v h =
      if_rule (Goes n) (is_empty s.text) (λ _. (h, v))
        λ _.
          if_rule (Goes n) (s.seen_exponent || s.seen_dot)
            (λ _. convert_float-Goes n s.text (record r { stream = input; str_value = s.text }) v h)
            λ _. convert_integer-Goes n s.text (record r { stream = input; str_value = s.text }) v h

  read_number-Goes :
      (ch : ℕ) (r : JsonReader)
      → IsNested r
      → Goes (length r.stream) (read_number strtod_overflows ch r)
  unfolding read_number
  read_number-Goes ch r v =
      number_answer-Goes (length r.stream) r _ v (scan_number-Within ch r.stream)

  pub read_value-Goes :
      (ch : ℕ) (r : JsonReader)
      → IsNested r
      → Goes (length r.stream) (read_value strtod_overflows ch r)
  unfolding read_value open_container
  read_value-Goes ch r v =
      if_rule (Goes (length r.stream)) (ch == b'{') (λ _. (omega arith, v))
        λ _.
          if_rule (Goes (length r.stream)) (ch == b'[') (λ _. (omega arith, v))
            λ _.
              if_rule (Goes (length r.stream)) (ch == b'"' || ch == b'\'')
                (λ _. read_string-Goes ch (record r { token_type = string_token }) v)
                λ _.
                  if_rule (Goes (length r.stream)) (ch == b'-' || is_digit ch)
                    (λ _. read_number-Goes ch r v)
                    λ _.
                      if_rule (Goes (length r.stream)) (ch == b'n')
                        (λ _.
                          read_keyword-Goes ch (ascii "null") (record r { token_type = null }) v)
                        λ _.
                          if_rule (Goes (length r.stream)) (ch == b't')
                            (λ _.
                              read_keyword-Goes ch (ascii "true")
                                (record r { token_type = boolean; bool_value = true }) v)
                            λ _.
                              if_rule (Goes (length r.stream)) (ch == b'f')
                                (λ _.
                                  read_keyword-Goes ch (ascii "false")
                                    (record r { token_type = boolean; bool_value = false }) v)
                                λ _. (omega arith, v)
