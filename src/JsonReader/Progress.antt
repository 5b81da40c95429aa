-- ===== src/JsonReader/Progress.antt =====
-- The reader makes progress: what each method leaves of the stream is no longer than what it was
-- given, and `Next` takes a byte at least.
use cheaproute.Prelude.{
  ℕ, zero, suc, ◌*◌, ◌%◌, ◌≤◌, ◌<◌, true, false, Option, none, some, List, [], ◌∷◌, ◌++◌, arith,
  ◌==◌, if_rule, elim_rule, length, bit_or, inl, inr, Option-cases,
}
use cheaproute.Hex.{hex_value}
use cheaproute.JsonReader.Text.{
  StringOutcome, closed, ended, broken, stuck, UnicodeOutcome, character, no_digit, no_more,
  unicode_loop, EscapeOutcome, next, stop, after_unicode, after_letter, escaped_char, escape,
  string_loop, read_quoted, KeywordOutcome, matched, differs, cut, keyword_loop,
}
use cheaproute.JsonReader.Number.{
  Scan, NumberOutcome, scanned, bad_number, ends_number, scan_char, number_loop, first_round,
  signed_number, scan_number,
}

-- At most `n` bytes are left. `stuck` is not among the outcomes.
abbrev pub Within : ℕ → StringOutcome → Type 0
Within n (closed str input) = length input ≤ n
Within n (ended str) = Unit
Within n (broken e str input) = length input ≤ n
Within n stuck = ⊥

abbrev EscapeWithin : ℕ → EscapeOutcome → Type 0
EscapeWithin n (next str input) = length input ≤ n
EscapeWithin n (stop outcome) = Within n outcome

abbrev UnicodeWithin : ℕ → UnicodeOutcome → Type 0
UnicodeWithin n (character value input) = length input ≤ n
UnicodeWithin n (no_digit input) = length input ≤ n
UnicodeWithin n no_more = Unit

Within-mono : (n m : ℕ) (o : StringOutcome) → n ≤ m → Within n o → Within m o
Within-mono n m (closed str input) h k = omega arith
Within-mono n m (ended str) h k = tt
Within-mono n m (broken e str input) h k = omega arith
Within-mono n m stuck h k = k

EscapeWithin-mono : (n m : ℕ) (o : EscapeOutcome) → n ≤ m → EscapeWithin n o → EscapeWithin m o
EscapeWithin-mono n m (next str input) h k = omega arith
EscapeWithin-mono n m (stop o) h k = Within-mono n m o h k

UnicodeWithin-mono : (n m : ℕ) (o : UnicodeOutcome) → n ≤ m → UnicodeWithin n o → UnicodeWithin m o
UnicodeWithin-mono n m (character value input) h k = omega arith
UnicodeWithin-mono n m (no_digit input) h k = omega arith
UnicodeWithin-mono n m no_more h k = tt

unicode_loop-Within :
    (rounds value : ℕ) (input : List ℕ)
    → UnicodeWithin (length input) (unicode_loop rounds value input)
unfolding unicode_loop
unicode_loop-Within zero value input = omega arith
unicode_loop-Within (suc rounds) value [] = tt
unicode_loop-Within (suc rounds) value (ch ∷ input) = elim (Option-cases (hex_value (ch % 256))) [
  | inl e ↦ rw (e, unicode_loop) (omega arith)
  | inr (d, e) ↦
      rw (e, unicode_loop)
        (UnicodeWithin-mono (length input) (suc (length input)) _ (omega arith)
          (unicode_loop-Within rounds (bit_or (value * 16) d) input))
]

after_unicode-Within :
    (n : ℕ) (str : List ℕ) (o : UnicodeOutcome)
    → UnicodeWithin n o
    → EscapeWithin n (after_unicode str o)
unfolding after_unicode
after_unicode-Within n str (character value input) h = h
after_unicode-Within n str (no_digit input) h = h
after_unicode-Within n str no_more h = tt

after_letter-Within :
    (str input : List ℕ) (o : Option ℕ) → EscapeWithin (length input) (after_letter str input o)
unfolding after_letter
after_letter-Within str input none = omega arith
after_letter-Within str input (some ch) = omega arith

escape-Within : (str input : List ℕ) → EscapeWithin (length input) (escape str input)
unfolding escape
escape-Within str [] = omega arith
escape-Within str (ch ∷ input) =
    if_rule (EscapeWithin (suc (length input))) (ch == b'u')
      (λ _. after_unicode-Within (suc (length input)) str _ (
        UnicodeWithin-mono (length input) (suc (length input)) _ (omega arith)
          (unicode_loop-Within 4 0 input)))
      λ _.
        EscapeWithin-mono (length input) (suc (length input)) _ (omega arith)
          (after_letter-Within str input (escaped_char ch))

escape_branch :
    (n : ℕ) (o : EscapeOutcome) (k : List ℕ → List ℕ → StringOutcome)
    → EscapeWithin n o
    → ((str input : List ℕ) → length input ≤ n → Within n (k str input))
    → Within n (elim o [ next str input ↦ k str input | stop outcome ↦ outcome ])
escape_branch n (next str input) k h f = f str input h
escape_branch n (stop outcome) k h f = h

-- With more fuel than bytes the loop of `ReadString` ends, within the bytes it was given.
string_loop-Within :
    (fuel quote : ℕ) (str input : List ℕ)
    → length input < fuel
    → Within (length input) (string_loop fuel quote str input)
unfolding string_loop
string_loop-Within zero quote str input h = absurd (omega arith)
string_loop-Within (suc fuel) quote str [] h = tt
string_loop-Within (suc fuel) quote str (ch ∷ input) h =
    if_rule (Within (suc (length input))) (ch == quote) (λ _. omega arith)
      λ _.
        elim_rule (Within (suc (length input))) (ch == b'\\') _ _
          (λ _. Within-mono (length input) (suc (length input)) _ (omega arith) (
            escape_branch (length input) (escape str input) (string_loop fuel quote)
              (escape-Within str input)
              (λ s i k.
                Within-mono (length i) (length input) _ k
                  (string_loop-Within fuel quote s i (omega arith)))))
          λ _.
            Within-mono (length input) (suc (length input)) _ (omega arith)
              (string_loop-Within fuel quote (str ++ ch ∷ []) input (omega arith))

-- `ReadString` ends on every input.
pub read_quoted-Within :
    (quote : ℕ) (input : List ℕ) → Within (length input) (read_quoted quote input)
unfolding read_quoted
read_quoted-Within quote input =
    string_loop-Within (suc (length input)) quote [] input (omega arith)

abbrev pub KeywordWithin : ℕ → KeywordOutcome → Type 0
KeywordWithin n (matched input) = length input ≤ n
KeywordWithin n (differs input) = length input ≤ n
KeywordWithin n cut = Unit

KeywordWithin-suc : (n : ℕ) (o : KeywordOutcome) → KeywordWithin n o → KeywordWithin (suc n) o
KeywordWithin-suc n (matched input) h = omega arith
KeywordWithin-suc n (differs input) h = omega arith
KeywordWithin-suc n cut h = tt

pub keyword_loop-Within :
    (keyword input : List ℕ) → KeywordWithin (length input) (keyword_loop keyword input)
unfolding keyword_loop
keyword_loop-Within [] input = omega arith
keyword_loop-Within (k ∷ keyword) [] = tt
keyword_loop-Within (k ∷ keyword) (ch ∷ input) =
    if_rule (KeywordWithin (suc (length input))) (ch == k)
      (λ _. KeywordWithin-suc (length input) _ (keyword_loop-Within keyword input)) λ _. omega arith

abbrev pub NumberWithin : ℕ → NumberOutcome → Type 0
NumberWithin n (scanned s input) = length input ≤ n
NumberWithin n (bad_number s input) = length input ≤ n

NumberWithin-suc : (n : ℕ) (o : NumberOutcome) → NumberWithin n o → NumberWithin (suc n) o
NumberWithin-suc n (scanned s input) h = omega arith
NumberWithin-suc n (bad_number s input) h = omega arith

scan_branch :
    (n : ℕ) (o : Option Scan) (bad : NumberOutcome) (k : Scan → NumberOutcome)
    → NumberWithin n bad
    → ((s : Scan) → NumberWithin n (k s))
    → NumberWithin n (elim o [ none ↦ bad | some s ↦ k s ])
scan_branch n none bad k h f = h
scan_branch n (some s) bad k h f = f s

number_loop-Within : (s : Scan) (input : List ℕ) → NumberWithin (length input) (number_loop s input)
unfolding number_loop
number_loop-Within s [] = omega arith
number_loop-Within s (ch ∷ input) =
    if_rule (NumberWithin (suc (length input))) (ends_number ch) (λ _. omega arith)
      λ _.
        scan_branch (suc (length input)) (scan_char false ch s) (bad_number s (ch ∷ input))
          (λ s'. number_loop s' input) (omega arith)
          (λ s'. NumberWithin-suc (length input) _ (number_loop-Within s' input))

first_round-Within :
    (s : Scan) (ch : ℕ) (input : List ℕ) → NumberWithin (length input) (first_round s ch input)
unfolding first_round
first_round-Within s ch input =
    if_rule (NumberWithin (length input)) (ends_number ch) (λ _. omega arith)
      λ _.
        scan_branch (length input) (scan_char true ch s) (bad_number s input)
          (λ s'. number_loop s' input) (omega arith) (λ s'. number_loop-Within s' input)

signed_number-Within : (input : List ℕ) → NumberWithin (length input) (signed_number input)
unfolding signed_number
signed_number-Within [] = omega arith
signed_number-Within (ch ∷ input) =
    NumberWithin-suc (length input) _ (first_round-Within _ ch input)

pub scan_number-Within :
    (ch : ℕ) (input : List ℕ) → NumberWithin (length input) (scan_number ch input)
unfolding scan_number
scan_number-Within ch input =
    if_rule (NumberWithin (length input)) (ch == b'-') (λ _. signed_number-Within input)
      λ _. first_round-Within _ ch input
