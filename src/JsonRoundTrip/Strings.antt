-- ===== src/JsonRoundTrip/Strings.antt =====
-- Strings: `ReadString` after `WriteRawString`.
use cheaproute.Prelude.{
  ℕ, zero, suc, ◌≤◌, ◌<◌, ◌≡◌, refl, ◌∙◌, ap, true, false, ◌||◌, some, List, [], ◌∷◌, ◌++◌,
  append_assoc, append-nil, arith, ◌==◌, ltb, ltb→lt, or_false, ne→==_false, inl, inr, Bool-cases,
  All, length, length-append,
}
use cheaproute.JsonReader.Text.{closed, escaped_char, escape, next, string_loop, read_quoted}
use cheaproute.JsonWriter.Text.{escaped, escaped_text, quoted}
use cheaproute.JsonRoundTrip.Escapes.{escape_letter, IsChar, code_of, escape-short, escape-long}

string_loop_plain :
    (ch quote fuel : ℕ) (str rest : List ℕ)
    → (ch == quote) ≡ false
    → (ch == b'\\') ≡ false
    → string_loop (suc fuel) quote str (ch ∷ rest) ≡ string_loop fuel quote (str ++ ch ∷ []) rest
unfolding string_loop
string_loop_plain ch quote fuel str rest h k = rw (h, k)

string_loop-escape :
    (fuel : ℕ) (str str' input rest : List ℕ)
    → escape str input ≡ next str' rest
    → string_loop (suc fuel) b'"' str (b'\\' ∷ input) ≡ string_loop fuel b'"' str' rest
unfolding string_loop
string_loop-escape fuel str str' input rest e = rw e

is_quote_or_backslash :
    (ch : ℕ)
    → (ch == b'"' || ch == b'\\') ≡ true
    → ((ch == b'u') ≡ false) × (escaped_char ch ≡ some ch)
unfolding escaped_char
is_quote_or_backslash ch h = (not_u, rw quoted_one)
  where
    not_u : (ch == b'u') ≡ false
    not_u = ground arith

    quoted_one : (ch == b'"' || (ch == b'/' || ch == b'\\')) ≡ true
    quoted_one = ground arith

-- One character of the printed string goes back on the string in one round.
string_loop-escaped :
    (ch fuel : ℕ) (str rest : List ℕ)
    → string_loop (suc fuel) b'"' str (escaped ch ++ rest)
      ≡ string_loop fuel b'"' (str ++ ch ∷ []) rest
unfolding escaped
string_loop-escaped ch fuel str rest = elim (Bool-cases (ch == b'"' || ch == b'\\')) [
  | inl quote ↦
      let (not_u, single) = is_quote_or_backslash ch quote in
      rw quote (
        string_loop-escape fuel str (str ++ ch ∷ []) (ch ∷ rest) rest
          (escape_letter ch ch str rest not_u single))
  | inr plain ↦ rw plain (elim (Bool-cases (ltb ch b' ')) [
    | inl control ↦ rw control (elim (Bool-cases (code_of ch == 0)) [
      | inl none_own ↦
          rw none_own
            (string_loop-escape fuel str _ _ rest (escape-long ch str rest (ltb→lt _ _ control)))
      | inr own ↦
          rw own (
            string_loop-escape fuel str _ _ rest
              (escape-short ch str rest (ltb→lt _ _ control) own))
    ])
    | inr printable ↦
        rw printable
          (let (p, q) = or_false _ _ plain in string_loop_plain ch b'"' fuel str rest p q)
  ])
]

string_loop-text :
    (text : List ℕ) (fuel : ℕ) (str rest : List ℕ)
    → All IsChar text
    → length text < fuel
    → string_loop fuel b'"' str (escaped_text text ++ b'"' ∷ rest) ≡ closed (str ++ text) rest
unfolding escaped_text
string_loop-text text zero str rest h k = absurd (omega arith)
string_loop-text [] (suc fuel) str rest h k = rw append-nil (unfold string_loop in refl)
string_loop-text (ch ∷ text) (suc fuel) str rest h k = rw (ne→==_false ch 0 (omega arith)) (
    ap (string_loop (suc fuel) b'"' str)
      (append_assoc (escaped ch) (escaped_text text) (b'"' ∷ rest))
    ∙ string_loop-escaped ch fuel str (escaped_text text ++ b'"' ∷ rest)
    ∙ string_loop-text text fuel (str ++ ch ∷ []) rest h.1 (omega arith)
    ∙ ap (λ t. closed t rest) (append_assoc str (ch ∷ []) text))

length-escaped : (ch : ℕ) → 0 < length (escaped ch)
unfolding escaped
length-escaped ch = ground arith

length-escaped_text : (text : List ℕ) → All IsChar text → length text ≤ length (escaped_text text)
unfolding escaped_text
length-escaped_text [] h = omega arith
length-escaped_text (ch ∷ text) h = rw (ne→==_false ch 0 (omega arith)) (
    omega (
      arith,
      length-append (escaped ch) (escaped_text text),
      length-escaped ch,
      length-escaped_text text h.1,
    ))

-- `ReadString` reads back exactly the string that `WriteRawString` printed between its quotes, and
-- stops behind the closing quote, for every string of bytes without a zero and whatever follows.
pub read_quoted-text :
    (text rest : List ℕ)
    → All IsChar text
    → read_quoted b'"' (escaped_text text ++ b'"' ∷ rest) ≡ closed text rest
unfolding read_quoted
read_quoted-text text rest h =
    string_loop-text text (suc (length (escaped_text text ++ b'"' ∷ rest))) [] rest h
      (omega (arith, length-append (escaped_text text) (b'"' ∷ rest), length-escaped_text text h))

-- A string is printed up to its first zero only.
pub quoted-zero : (text more : List ℕ) → All IsChar text → quoted (text ++ 0 ∷ more) ≡ quoted text
unfolding quoted
quoted-zero text more h = ap (λ t. b'"' ∷ (t ++ b'"' ∷ [])) (cut_off text h)
  where
    cut_off : (xs : List ℕ) → All IsChar xs → escaped_text (xs ++ 0 ∷ more) ≡ escaped_text xs
    cut_off [] k = unfold escaped_text in refl
    cut_off (x ∷ xs) k =
        unfold escaped_text in
        rw (ne→==_false x 0 (omega arith)) (ap (λ t. escaped x ++ t) (cut_off xs k.1))
