-- ===== src/JsonWriter/Text.antt =====
-- base/json_writer.cc: `WriteRawString`, with `kSpecialEscapes`, and the decimal texts that
-- `snprintf` prints.
use cheaproute.Prelude.{
  ℕ, zero, suc, ◌+◌, ◌/◌, ◌%◌, ◌||◌, List, [], ◌∷◌, ◌++◌, ◌==◌, ltb, if◌then◌else◌, get_or,
  replicate, ascii,
}
use cheaproute.Prelude.Int.{ℤ, pos, negsuc}
use cheaproute.Hex.{high_char, low_char}

-- `kSpecialEscapes`
abbrev pub special_escapes : List ℕ
special_escapes = replicate 8 0 ++ (ascii "btn" ++ (0 ∷ ascii "fr" ++ replicate 18 0))

-- The bytes that stand for one character of a string.
unfoldable pub escaped : ℕ → List ℕ
unfolding high_char low_char
escaped ch =
    if ch == b'"' || ch == b'\\'
    then b'\\' ∷ ch ∷ []
    else if ltb ch b' '
    then (let code = get_or special_escapes ch 0 in
        b'\\'
        ∷ (if code == 0 then b'u' ∷ b'0' ∷ b'0' ∷ high_char ch ∷ low_char ch ∷ [] else code ∷ []))
    else ch ∷ []

-- The loop of `WriteRawString`, which ends at the terminating zero of the C string or at one within
-- it.
unfoldable pub escaped_text : List ℕ → List ℕ
unfolding escaped
escaped_text [] = []
escaped_text (ch ∷ str) = if ch == 0 then [] else escaped ch ++ escaped_text str

-- `WriteRawString`
unfoldable pub quoted : List ℕ → List ℕ
unfolding escaped_text
quoted str = b'"' ∷ (escaped_text str ++ b'"' ∷ [])

-- The digits of a number, for a number of fewer than `fuel` digits or of `fuel`.
unfoldable pub digits : ℕ → ℕ → List ℕ → List ℕ
digits zero n text = text
digits (suc fuel) n text =
    let more = digits fuel (n / 10) ((b'0' + n % 10) ∷ text) in
    if ltb n 10 then (b'0' + n) ∷ text else more

-- "%u", and "%d" of a number that is not negative; twenty digits hold 64 bits.
unfoldable pub decimal : ℕ → List ℕ
decimal n = digits 20 n []

-- "%d"
unfoldable pub signed_decimal : ℤ → List ℕ
signed_decimal (pos n) = decimal n
signed_decimal (negsuc n) = b'-' ∷ decimal (n + 1)
