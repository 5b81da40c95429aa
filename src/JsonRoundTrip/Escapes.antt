-- ===== src/JsonRoundTrip/Escapes.antt =====
-- The reader's escapes read back those that the printer writes.
use cheaproute.Prelude.{
  ℕ, suc, ◌*◌, ◌%◌, ◌<◌, ◌≡◌, refl, ◌∙◌, ap, Bool, true, false, not, ◌&&◌, ◌||◌, Option, none, some,
  List, [], ◌∷◌, ◌++◌, ◌==◌, ==_iff, and_parts, or_right, negated, IsByte, get_or, bit_or,
}
use cheaproute.Prelude.Table.{passes, passes-at}
use cheaproute.Hex.{hex_value, high_char, low_char}
use cheaproute.Utf8.{utf8}
use cheaproute.JsonReader.Text.{
  escaped_char, unicode_loop, character, after_unicode, after_letter, escape, next,
}
use cheaproute.JsonWriter.Text.{special_escapes}

-- A character that a C string can hold.
abbrev pub IsChar : ℕ → Type 0
IsChar ch = (0 < ch) × IsByte ch

abbrev pub code_of : ℕ → ℕ
code_of ch = get_or special_escapes ch 0

is_char : Option ℕ → ℕ → Bool
is_char none ch = false
is_char (some c) ch = c == ch

is_single : List ℕ → ℕ → Bool
is_single [] ch = false
is_single (c ∷ []) ch = c == ch
is_single (c ∷ d ∷ text) ch = false

-- The character that two hexadecimal digits behind "00" stand for, as the reader computes it.
joins_to : Option ℕ → Option ℕ → ℕ → Bool
joins_to none low ch = false
joins_to (some high) none ch = false
joins_to (some high) (some low) ch = is_single (utf8 (bit_or (bit_or 0 high * 16) low)) ch

short_reads_back : ℕ → Bool
short_reads_back ch =
    code_of ch == 0 || (not (code_of ch == b'u') && is_char (escaped_char (code_of ch)) ch)

long_reads_back : ℕ → Bool
long_reads_back ch = joins_to (hex_value (high_char ch % 256)) (hex_value (low_char ch % 256)) ch

short_table : passes short_reads_back 32 ≡ true
unfolding passes short_reads_back is_char escaped_char
short_table = refl

long_table : passes long_reads_back 32 ≡ true
unfolding passes long_reads_back joins_to is_single hex_value high_char low_char utf8
long_table = refl

is_char_sound : (o : Option ℕ) (ch : ℕ) → is_char o ch ≡ true → o ≡ some ch
unfolding is_char
is_char_sound none ch h = cc
is_char_sound (some c) ch h = ap some ((==_iff c ch).0 h)

is_single_sound : (text : List ℕ) (ch : ℕ) → is_single text ch ≡ true → text ≡ ch ∷ []
unfolding is_single
is_single_sound [] ch h = cc
is_single_sound (c ∷ []) ch h = ap (λ d. d ∷ []) ((==_iff c ch).0 h)
is_single_sound (c ∷ d ∷ text) ch h = cc

joins_to_sound :
    (a b : Option ℕ) (ch : ℕ)
    → joins_to a b ch ≡ true
    → (high : ℕ) × (low : ℕ) × (a ≡ some high)
      × (b ≡ some low)
      × (utf8 (bit_or (bit_or 0 high * 16) low) ≡ ch ∷ [])
unfolding joins_to
joins_to_sound none b ch h = cc
joins_to_sound (some high) none ch h = cc
joins_to_sound (some high) (some low) ch h = (high, low, refl, refl, is_single_sound _ ch h)

pub escape_letter :
    (letter ch : ℕ) (str rest : List ℕ)
    → (letter == b'u') ≡ false
    → escaped_char letter ≡ some ch
    → escape str (letter ∷ rest) ≡ next (str ++ ch ∷ []) rest
unfolding escape
escape_letter letter ch str rest h k = rw h (unfold after_letter in rw k)

hex_value-zero : hex_value b'0' ≡ some 0
unfolding hex_value
hex_value-zero = refl

unicode_step :
    (rounds value ch digit : ℕ) (input : List ℕ)
    → hex_value (ch % 256) ≡ some digit
    → unicode_loop (suc rounds) value (ch ∷ input)
      ≡ unicode_loop rounds (bit_or (value * 16) digit) input
unfolding unicode_loop
unicode_step rounds value ch digit input h = rw (h, unicode_loop)

unicode_four :
    (h l high low : ℕ) (rest : List ℕ)
    → hex_value (h % 256) ≡ some high
    → hex_value (l % 256) ≡ some low
    → unicode_loop 4 0 (b'0' ∷ b'0' ∷ h ∷ l ∷ rest)
      ≡ character (bit_or (bit_or 0 high * 16) low) rest
unfolding unicode_loop
unicode_four h l high low rest p q =
    unicode_step 3 0 b'0' 0 (b'0' ∷ h ∷ l ∷ rest) hex_value-zero
    ∙ unicode_step 2 0 b'0' 0 (h ∷ l ∷ rest) hex_value-zero
    ∙ unicode_step 1 0 h high (l ∷ rest) p
    ∙ unicode_step 0 (bit_or 0 high) l low rest q

escape_unicode :
    (h l high low ch : ℕ) (str rest : List ℕ)
    → hex_value (h % 256) ≡ some high
    → hex_value (l % 256) ≡ some low
    → utf8 (bit_or (bit_or 0 high * 16) low) ≡ ch ∷ []
    → escape str (b'u' ∷ b'0' ∷ b'0' ∷ h ∷ l ∷ rest) ≡ next (str ++ ch ∷ []) rest
unfolding escape
escape_unicode h l high low ch str rest p q e =
    rw (unicode_four h l high low rest p q) (unfold after_unicode in rw e)

short_facts :
    (ch : ℕ)
    → ch < 32
    → (code_of ch == 0) ≡ false
    → ((code_of ch == b'u') ≡ false) × (escaped_char (code_of ch) ≡ some ch)
unfolding short_reads_back
short_facts ch h k =
    let (not_u, single) =
      and_parts (not (code_of ch == b'u')) (is_char (escaped_char (code_of ch)) ch)
        (or_right (code_of ch == 0) _ k (passes-at short_reads_back 32 short_table ch h)) in
    (negated _ not_u, is_char_sound _ ch single)

-- A control character with a letter of its own.
pub escape-short :
    (ch : ℕ) (str rest : List ℕ)
    → ch < 32
    → (code_of ch == 0) ≡ false
    → escape str (code_of ch ∷ rest) ≡ next (str ++ ch ∷ []) rest
escape-short ch str rest h k =
    let (not_u, single) = short_facts ch h k in escape_letter (code_of ch) ch str rest not_u single

long_facts :
    (ch : ℕ)
    → ch < 32
    → (high : ℕ) × (low : ℕ) × (hex_value (high_char ch % 256) ≡ some high)
      × (hex_value (low_char ch % 256) ≡ some low)
      × (utf8 (bit_or (bit_or 0 high * 16) low) ≡ ch ∷ [])
unfolding long_reads_back
long_facts ch h = joins_to_sound _ _ ch (passes-at long_reads_back 32 long_table ch h)

-- A control character in hexadecimal.
pub escape-long :
    (ch : ℕ) (str rest : List ℕ)
    → ch < 32
    → escape str (b'u' ∷ b'0' ∷ b'0' ∷ high_char ch ∷ low_char ch ∷ rest)
      ≡ next (str ++ ch ∷ []) rest
escape-long ch str rest h =
    let (high, low, p, q, e) = long_facts ch h in
    escape_unicode (high_char ch) (low_char ch) high low ch str rest p q e
