-- ===== src/Hex/RoundTrip.antt =====
-- `ParseHex` after `FormatHex`.
use cheaproute.Prelude.{
  ℕ, ◌+◌, ◌≡◌, refl, ◌∙◌, ap, Bool, true, false, not, ◌&&◌, List, [], ◌∷◌, ◌++◌, append-nil,
  append_assoc, arith, ◌==◌, ==_iff, All, IsByte, and_parts, negated,
}
use cheaproute.Prelude.Table.{passes, passes-at}
use cheaproute.Hex.{
  HexPair, octet, bad_pair, outside, hex_pair, is_hex_space, high_char, low_char, separator,
  next_position, format_hex_loop, format_hex, parse_hex,
}

-- What the loop of `ParseHex` sees of the two characters of `b`.
is_octet : HexPair → ℕ → Bool
is_octet (octet c) b = c == b
is_octet bad_pair b = false
is_octet outside b = false

reads_back : ℕ → Bool
unfolding high_char low_char is_hex_space hex_pair is_octet
reads_back b =
    not (high_char b == 0)
    && (not (is_hex_space (high_char b)) && is_octet (hex_pair (high_char b) (low_char b)) b)

reads_back_table : passes reads_back 256 ≡ true
unfolding passes reads_back
reads_back_table = refl

octet_of_test : (p : HexPair) (b : ℕ) → is_octet p b ≡ true → p ≡ octet b
unfolding is_octet
octet_of_test (octet c) b h = ap octet ((==_iff c b).0 h)
octet_of_test bad_pair b h = cc
octet_of_test outside b h = cc

byte_facts :
    (b : ℕ)
    → reads_back b ≡ true
    → ((high_char b == 0) ≡ false)
      × (is_hex_space (high_char b) ≡ false)
      × (hex_pair (high_char b) (low_char b) ≡ octet b)
unfolding reads_back
byte_facts b h =
    let (first, more) = and_parts _ _ h in
    let (second, third) = and_parts _ _ more in
    (negated _ first, negated _ second, octet_of_test _ b third)

parse_hex-byte :
    (b : ℕ) (rest destination : List ℕ)
    → IsByte b
    → parse_hex (high_char b ∷ low_char b ∷ rest) destination
      ≡ parse_hex rest (destination ++ b ∷ [])
unfolding parse_hex
parse_hex-byte b rest destination h =
    ground (arith, byte_facts b (passes-at reads_back 256 reads_back_table b h))

parse_hex-space :
    (c : ℕ) (rest destination : List ℕ)
    → (c == 0) ≡ false
    → is_hex_space c ≡ true
    → parse_hex (c ∷ rest) destination ≡ parse_hex rest destination
unfolding parse_hex
parse_hex-space c [] destination h k = ground arith
parse_hex-space c (d ∷ rest) destination h k = ground arith

parse_hex-separator :
    (pos : ℕ) (rest destination : List ℕ)
    → parse_hex (separator pos ++ rest) destination ≡ parse_hex rest destination
unfolding separator is_hex_space
parse_hex-separator pos rest destination = ground (
  arith,
  parse_hex-space b' ' rest destination refl refl,
  parse_hex-space b'\n' rest destination refl refl,
  parse_hex-space b' ' (b' ' ∷ rest) destination refl refl,
  parse_hex-space b' ' (b'\n' ∷ rest) destination refl refl,
)

parse_hex-loop :
    (bytes : List ℕ) (pos : ℕ) (rest destination : List ℕ)
    → All IsByte bytes
    → parse_hex (format_hex_loop pos bytes ++ rest) destination
      ≡ parse_hex rest (destination ++ bytes)
unfolding format_hex_loop
parse_hex-loop [] pos rest destination h = rw append-nil
parse_hex-loop (b ∷ []) pos rest destination h = parse_hex-byte b rest destination h.0
parse_hex-loop (b ∷ c ∷ bytes) pos rest destination h =
    parse_hex-byte b _ destination h.0
    ∙ rw append_assoc (
        parse_hex-separator (pos + 1) _ (destination ++ b ∷ [])
        ∙ parse_hex-loop (c ∷ bytes) (next_position (pos + 1)) rest (destination ++ b ∷ []) h.1
        ∙ rw append_assoc)

-- `ParseHex` appends to its destination exactly the bytes that `FormatHex` was given, and goes on
-- with what follows their text, for every list of bytes.
pub parse_hex-format_hex :
    (bytes rest destination : List ℕ)
    → All IsByte bytes
    → parse_hex (format_hex bytes ++ rest) destination ≡ parse_hex rest (destination ++ bytes)
unfolding format_hex
parse_hex-format_hex bytes rest destination h = parse_hex-loop bytes 0 rest destination h
