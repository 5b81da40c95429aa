-- ===== src/Hex/Digits.antt =====
-- base/common.cc: the entries of `kHexValues`, as the digits of ASCII.
use cheaproute.Prelude.{
  true, false, ℕ, ◌<◌, ◌≡◌, ◌≢◌, refl, ◌∙◌, ap, ap₂, Option, none, some, arith, ◌==◌, leb, Bool,
  ◌&&◌, ==_iff, if◌then◌else◌, ◌-◌, ◌+◌, ◌*◌, ◌/◌, ◌%◌, bit_or,
}
use cheaproute.Prelude.Table.{passes, passes-at}
use cheaproute.Hex.{HexLookup, nibble, no_digit, no_entry, lookup_nibble, entry_at, hex_values}

abbrev pub IsAscii : ℕ → Type 0
IsAscii c = c < 128

-- The value of a hexadecimal digit, by the place of its character in ASCII.
unfoldable pub digit_of : ℕ → Option ℕ
digit_of c =
    if leb b'0' c && leb c b'9'
    then some (c - b'0')
    else if leb b'A' c && leb c b'F'
    then some (c - b'A' + 10)
    else if leb b'a' c && leb c b'f'
    then some (c - b'a' + 10)
    else none

unfoldable pub as_lookup : Option ℕ → HexLookup
as_lookup none = no_digit
as_lookup (some value) = nibble value

is_same : HexLookup → Option ℕ → Bool
is_same (nibble v) (some w) = v == w
is_same no_digit none = true
is_same _ _ = false

finds_digit : ℕ → Bool
unfolding is_same digit_of lookup_nibble
finds_digit c = is_same (lookup_nibble c) (digit_of c)

finds_digit_table : passes finds_digit 128 ≡ true
unfolding passes finds_digit
finds_digit_table = refl

same_lookup : (l : HexLookup) (o : Option ℕ) → is_same l o ≡ true → l ≡ as_lookup o
unfolding is_same as_lookup
same_lookup (nibble v) (some w) h = ap nibble ((==_iff v w).0 h)
same_lookup (nibble v) none h = cc
same_lookup no_digit none h = refl
same_lookup no_digit (some w) h = cc
same_lookup no_entry none h = cc
same_lookup no_entry (some w) h = cc

-- At every ASCII character the table has an entry, the value of the digit.
pub lookup_nibble-digit_of : (c : ℕ) → IsAscii c → lookup_nibble c ≡ as_lookup (digit_of c)
unfolding finds_digit
lookup_nibble-digit_of c h = same_lookup _ _ (passes-at finds_digit 128 finds_digit_table c h)

pub digit_of-small : (c v : ℕ) → digit_of c ≡ some v → v < 16
unfolding digit_of
digit_of-small c v h = ground arith

joins : ℕ → Bool
joins b = bit_or (b / 16 * 16) (b % 16) % 256 == b

joins_table : passes joins 256 ≡ true
unfolding passes joins
joins_table = refl

pub join_digits :
    (high low : ℕ) → high < 16 → low < 16 → bit_or (high * 16) low % 256 ≡ high * 16 + low
unfolding joins
join_digits high low h k =
    ap₂ (λ x y. bit_or (x * 16) y % 256) (omega arith) (omega arith)
    ∙ (==_iff _ _).0 (passes-at joins 256 joins_table (high * 16 + low) (omega arith))

pub zero-no_digit : (d : ℕ) → (d == 0) ≡ true → digit_of d ≡ none
unfolding digit_of
zero-no_digit d h = ground (arith, ==_iff d 0)

is_entry : HexLookup → Bool
is_entry (nibble v) = true
is_entry no_digit = true
is_entry no_entry = false

has_entry : ℕ → Bool
unfolding is_entry
has_entry c = is_entry (entry_at hex_values c)

has_entry_table : passes has_entry 256 ≡ true
unfolding passes has_entry entry_at
has_entry_table = refl

-- An index below 256 is within the table.
entry_at-hex_values : (c : ℕ) → c < 256 → entry_at hex_values c ≢ no_entry
unfolding has_entry
entry_at-hex_values c h e = cc (passes-at has_entry 256 has_entry_table c h, ap is_entry e)
