-- ===== src/Hex.antt =====
-- base/common.cc: the hexadecimal tables and conversions. A `char` is signed where the program
-- runs, so a character from 128 on indexes `kHexValues` below its first entry.
pub mod RoundTrip
pub mod Digits
pub mod Accepts
pub mod Grows
use cheaproute.Prelude.{
  ℕ, zero, suc, ◌+◌, ◌*◌, ◌/◌, ◌%◌, ◌<◌, Bool, true, false, ◌&&◌, ◌||◌, Option, none, some, List,
  [], ◌∷◌, ◌++◌, ltb, leb, ◌==◌, if◌then◌else◌, get_or, replicate, bit_and, bit_or, ascii,
}

-- `kHexChars`.
abbrev pub hex_chars : List ℕ
hex_chars = ascii "0123456789abcdef"

-- `kHexValues`, with `none` for -1.
abbrev pub hex_values : List (Option ℕ)
hex_values =
    replicate 48 none
    ++ (some 0
        ∷ some 1
        ∷ some 2
        ∷ some 3
        ∷ some 4
        ∷ some 5
        ∷ some 6
        ∷ some 7
        ∷ some 8
        ∷ some 9
        ∷ [])
    ++ replicate 7 none
    ++ (some 10 ∷ some 11 ∷ some 12 ∷ some 13 ∷ some 14 ∷ some 15 ∷ [])
    ++ replicate 26 none
    ++ (some 10 ∷ some 11 ∷ some 12 ∷ some 13 ∷ some 14 ∷ some 15 ∷ [])
    ++ replicate 153 none

-- What the lookup of a nibble finds: an entry that is not -1, -1, or no entry of the table.
pub data HexLookup : Type 0 where
  nibble : ℕ → HexLookup
  no_digit : HexLookup
  no_entry : HexLookup

-- `kHexValues[index]`: past the last entry there is none.
unfoldable pub entry_at : List (Option ℕ) → ℕ → HexLookup
entry_at [] index = no_entry
entry_at (none ∷ entries) zero = no_digit
entry_at (some value ∷ entries) zero = nibble value
entry_at (entry ∷ entries) (suc index) = entry_at entries index

-- The entry at an index below 256, where every index has one, with `none` for -1.
unfoldable pub digit_at : HexLookup → Option ℕ
digit_at (nibble value) = some value
digit_at no_digit = none
digit_at no_entry = none

unfoldable pub hex_value : ℕ → Option ℕ
unfolding digit_at entry_at
hex_value c = digit_at (entry_at hex_values c)

-- `kHexValues[static_cast<int>(c)]`: as an index, a `char` of 128 or more is negative.
unfoldable pub lookup_nibble : ℕ → HexLookup
unfolding entry_at
lookup_nibble c = if leb 128 c then no_entry else entry_at hex_values c

unfoldable pub hex_char : ℕ → ℕ
hex_char d = get_or hex_chars d 0

-- The two characters of a byte.
unfoldable pub high_char : ℕ → ℕ
unfolding hex_char
high_char b = hex_char (bit_and b 0xf0 / 16)

unfoldable pub low_char : ℕ → ℕ
unfolding hex_char
low_char b = hex_char (bit_and b 0x0f)

-- What follows a byte that is not the last, and the position on the line after it.
unfoldable pub separator : ℕ → List ℕ
separator pos =
    (if pos == 8 then b' ' ∷ [] else []) ++ (if pos == 16 then b'\n' ∷ [] else b' ' ∷ [])

unfoldable pub next_position : ℕ → ℕ
next_position pos = if pos == 16 then 0 else pos

unfoldable pub format_hex_loop : ℕ → List ℕ → List ℕ
format_hex_loop pos [] = []
format_hex_loop pos (b ∷ []) = high_char b ∷ low_char b ∷ []
format_hex_loop pos (b ∷ c ∷ rest) =
    high_char b
    ∷ low_char b
    ∷ (separator (pos + 1) ++ format_hex_loop (next_position (pos + 1)) (c ∷ rest))

-- `FormatHex`.
unfoldable pub format_hex : List ℕ → List ℕ
format_hex bytes = format_hex_loop 0 bytes

-- `ParseHex` returns true or false, with what it has appended, or reads outside its table.
pub data HexResult : Type 0 where
  parsed : List ℕ → HexResult
  rejected : List ℕ → HexResult
  out_of_table : HexResult

pub data HexPair : Type 0 where
  octet : ℕ → HexPair
  bad_pair : HexPair
  outside : HexPair

unfoldable pub is_hex_space : ℕ → Bool
is_hex_space c = c == b'\t' || (c == b'\r' || (c == b'\n' || c == b' '))

-- What is made of two lookups: the byte, if both are digits.
unfoldable pub join_nibbles : HexLookup → HexLookup → HexPair
join_nibbles no_entry low = outside
join_nibbles no_digit no_entry = outside
join_nibbles no_digit no_digit = bad_pair
join_nibbles no_digit (nibble low) = bad_pair
join_nibbles (nibble high) no_entry = outside
join_nibbles (nibble high) no_digit = bad_pair
join_nibbles (nibble high) (nibble low) = octet (bit_or (high * 16) low % 256)

-- Behind the first lookup of a round, which comes before the test for the end of the text.
unfoldable pub pair_after : HexLookup → ℕ → HexPair
unfolding join_nibbles lookup_nibble
pair_after no_entry d = outside
pair_after no_digit d = if d == 0 then bad_pair else join_nibbles no_digit (lookup_nibble d)
pair_after (nibble high) d =
    if d == 0 then bad_pair else join_nibbles (nibble high) (lookup_nibble d)

-- The lookups of one round, in the order that the loop makes them.
unfoldable pub hex_pair : ℕ → ℕ → HexPair
unfolding pair_after lookup_nibble
hex_pair c d = pair_after (lookup_nibble c) d

-- `ParseHex` over the characters of a C string: it ends at the first zero, or where the list does.
unfoldable pub parse_hex : List ℕ → List ℕ → HexResult
unfolding lookup_nibble
parse_hex [] destination = parsed destination
parse_hex (c ∷ []) destination =
    if c == 0
    then parsed destination
    else if is_hex_space c
    then parsed destination
    else elim (lookup_nibble c) [
      | nibble high ↦ rejected destination
      | no_digit ↦ rejected destination
      | no_entry ↦ out_of_table
    ]
parse_hex (c ∷ d ∷ rest) destination =
    if c == 0 then parsed destination else elim (is_hex_space c) [
      | true ↦ parse_hex (d ∷ rest) destination
      | false ↦ elim (hex_pair c d) [
        | octet b ↦ parse_hex rest (destination ++ b ∷ [])
        | bad_pair ↦ rejected destination
        | outside ↦ out_of_table
      ]
    ]
