-- ===== src/Hex/Accepts.antt =====
-- `ParseHex` on any text.
use cheaproute.Prelude.{
  true, false, ℕ, ◌≤◌, ◌≡◌, ◌≢◌, refl, sym, ◌∙◌, ap, ==_false→ne, subst, List, [], ◌∷◌, ◌++◌,
  Option, none, some, append-nil, append_assoc, arith, ◌==◌, le→leb, ne→==_false, if_rule,
  elim_rule, All, ◌⊎◌, inl, inr, ==_iff, ◌+◌, ◌*◌,
}
use cheaproute.Hex.Digits.{
  IsAscii, digit_of, as_lookup, lookup_nibble-digit_of, digit_of-small, join_digits, zero-no_digit,
}
use cheaproute.Hex.{
  HexResult, parsed, rejected, out_of_table, HexPair, octet, bad_pair, outside, hex_pair,
  join_nibbles, is_hex_space, parse_hex, nibble, no_digit, no_entry, lookup_nibble, pair_after,
}

-- The texts that are pairs of digits with white space before and between the pairs, with their bytes.
pub data Spells : List ℕ → List ℕ → Type 0 where
  at_end : Spells [] []
  over_space :
      {c : ℕ} {text bytes : List ℕ}
      → is_hex_space c ≡ true
      → Spells text bytes
      → Spells (c ∷ text) bytes
  digits :
      {c d high low : ℕ} {text bytes : List ℕ}
      → digit_of c ≡ some high
      → digit_of d ≡ some low
      → Spells text bytes
      → Spells (c ∷ d ∷ text) ((high * 16 + low) ∷ bytes)

-- A text that is over.
abbrev pub IsOver : List ℕ → Type 0
IsOver [] = Unit
IsOver (c ∷ rest) = c ≡ 0

abbrev pub IsNoDigitNext : List ℕ → Type 0
IsNoDigitNext [] = Unit
IsNoDigitNext (d ∷ rest) = digit_of d ≡ none

-- A text with something other than white space in front that is no pair of digits.
abbrev pub IsBroken : List ℕ → Type 0
IsBroken [] = ⊥
IsBroken (c ∷ rest) =
    (c ≢ 0) × (is_hex_space c ≡ false) × ((digit_of c ≡ none) ⊎ IsNoDigitNext rest)

-- The text begins with a part that spells the bytes that were appended, and what is behind that part
-- is as stated.
pub record Splits (Behind : List ℕ → Type 0) (text destination result : List ℕ) : Type 0 where
  pub front : List ℕ
  pub behind : List ℕ
  pub bytes : List ℕ
  pub whole : text ≡ front ++ behind
  pub spells : Spells front bytes
  pub stops : Behind behind
  pub grown : result ≡ destination ++ bytes

abbrev pub Outcome : List ℕ → List ℕ → HexResult → Type 0
Outcome text destination (parsed result) = Splits IsOver text destination result
Outcome text destination (rejected result) = Splits IsBroken text destination result
Outcome text destination out_of_table = ⊥

-- What one round does at two characters, neither white space nor the end.
data Round (c d : ℕ) : HexPair → Type 0 where
  pair :
      {high low : ℕ}
      → digit_of c ≡ some high
      → digit_of d ≡ some low
      → Round c d (octet (high * 16 + low))
  no_pair : (digit_of c ≡ none) ⊎ (digit_of d ≡ none) → Round c d bad_pair

pair_after-Round :
    (c d : ℕ) → IsAscii d → (o : Option ℕ) → digit_of c ≡ o → Round c d (pair_after (as_lookup o) d)
unfolding pair_after as_lookup join_nibbles
pair_after-Round c d k none e =
    if_rule (Round c d) (d == 0) (λ z. no_pair (inl e))
      (λ _. rw (lookup_nibble-digit_of d k) (second (digit_of d)))
  where
    second : (p : Option ℕ) → Round c d (join_nibbles no_digit (as_lookup p))
    second none = no_pair (inl e)
    second (some low) = no_pair (inl e)
pair_after-Round c d k (some high) e =
    if_rule (Round c d) (d == 0) (λ z. no_pair (inr (zero-no_digit d z)))
      (λ _. rw (lookup_nibble-digit_of d k) (second (digit_of d) refl))
  where
    second : (p : Option ℕ) → digit_of d ≡ p → Round c d (join_nibbles (nibble high) (as_lookup p))
    second none f = no_pair (inr f)
    second (some low) f =
        subst (λ b. Round c d (octet b))
          (sym (join_digits high low (digit_of-small c high e) (digit_of-small d low f))) (pair e f)

hex_pair-Round : (c d : ℕ) → IsAscii c → IsAscii d → Round c d (hex_pair c d)
unfolding hex_pair
hex_pair-Round c d h k = rw (lookup_nibble-digit_of c h) (pair_after-Round c d k (digit_of c) refl)

-- Nothing is taken.
stops_here :
    (Behind : List ℕ → Type 0) (text destination : List ℕ)
    → Behind text
    → Splits Behind text destination destination
stops_here Behind text destination h = record {
  front = [];
  behind = text;
  bytes = [];
  whole = refl;
  spells = at_end;
  stops = h;
  grown = sym (append-nil destination);
}

Splits-space :
    {c : ℕ} {text destination result : List ℕ} {Behind : List ℕ → Type 0}
    → is_hex_space c ≡ true
    → Splits Behind text destination result
    → Splits Behind (c ∷ text) destination result
Splits-space {c} h x = record {
  front = c ∷ x.front;
  behind = x.behind;
  bytes = x.bytes;
  whole = ap (λ t. c ∷ t) x.whole;
  spells = over_space h x.spells;
  stops = x.stops;
  grown = x.grown;
}

Outcome-space :
    (c : ℕ) (text destination : List ℕ) (r : HexResult)
    → is_hex_space c ≡ true
    → Outcome text destination r
    → Outcome (c ∷ text) destination r
Outcome-space c text destination (parsed result) h x = Splits-space h x
Outcome-space c text destination (rejected result) h x = Splits-space h x
Outcome-space c text destination out_of_table h x = x

Splits-digits :
    {c d high low : ℕ} {text destination result : List ℕ} {Behind : List ℕ → Type 0}
    → digit_of c ≡ some high
    → digit_of d ≡ some low
    → Splits Behind text (destination ++ (high * 16 + low) ∷ []) result
    → Splits Behind (c ∷ d ∷ text) destination result
Splits-digits {c} {d} {high} {low} {text} {destination} h k x = record {
  front = c ∷ d ∷ x.front;
  behind = x.behind;
  bytes = (high * 16 + low) ∷ x.bytes;
  whole = ap (λ t. c ∷ d ∷ t) x.whole;
  spells = digits h k x.spells;
  stops = x.stops;
  grown = x.grown ∙ append_assoc destination ((high * 16 + low) ∷ []) x.bytes;
}

Outcome-digits :
    (c d high low : ℕ) (text destination : List ℕ) (r : HexResult)
    → digit_of c ≡ some high
    → digit_of d ≡ some low
    → Outcome text (destination ++ (high * 16 + low) ∷ []) r
    → Outcome (c ∷ d ∷ text) destination r
Outcome-digits c d high low text destination (parsed result) h k x = Splits-digits h k x
Outcome-digits c d high low text destination (rejected result) h k x = Splits-digits h k x
Outcome-digits c d high low text destination out_of_table h k x = x

round-Outcome :
    (c d : ℕ) (rest destination : List ℕ) (p : HexPair) (next : ℕ → HexResult)
    → (c ≢ 0)
    → (is_hex_space c ≡ false)
    → Round c d p
    → ((b : ℕ) → Outcome rest (destination ++ b ∷ []) (next b))
    → Outcome
        (c ∷ d ∷ rest)
        destination
        (elim p [ octet b ↦ next b | bad_pair ↦ rejected destination | outside ↦ out_of_table ])
round-Outcome c d rest destination _ next z s (pair {high} {low} e f) k =
    Outcome-digits c d high low rest destination (next (high * 16 + low)) e f (k _)
round-Outcome c d rest destination _ next z s (no_pair why) k =
    stops_here IsBroken (c ∷ d ∷ rest) destination (z, s, why)

last-Outcome :
    (c : ℕ) (destination : List ℕ) (o : Option ℕ)
    → (c ≢ 0)
    → is_hex_space c ≡ false
    → Outcome (c ∷ []) destination (elim (as_lookup o) [
      | nibble high ↦ rejected destination
      | no_digit ↦ rejected destination
      | no_entry ↦ out_of_table
    ])
unfolding as_lookup
last-Outcome c destination none z s = stops_here IsBroken (c ∷ []) destination (z, s, inr tt)
last-Outcome c destination (some v) z s = stops_here IsBroken (c ∷ []) destination (z, s, inr tt)

over_space-end :
    (c : ℕ) (destination : List ℕ)
    → is_hex_space c ≡ true
    → Outcome (c ∷ []) destination (parsed destination)
over_space-end c destination s =
    Outcome-space c [] destination (parsed destination) s (stops_here IsOver [] destination tt)

-- On ASCII text `ParseHex` never reads outside its table. It returns true only where the text up to its
-- end is pairs of digits with white space before, between and behind them, and false only where a part
-- like that is followed by something that is neither the end nor white space nor a pair of digits; and in
-- both cases it has kept the destination and appended the bytes that the pairs of that part spell.
pub parse_hex-Outcome :
    (text destination : List ℕ)
    → All IsAscii text
    → Outcome text destination (parse_hex text destination)
unfolding parse_hex
parse_hex-Outcome [] destination h = stops_here IsOver [] destination tt
parse_hex-Outcome (c ∷ []) destination h =
    if_rule (Outcome (c ∷ []) destination) (c == 0)
      (λ z. stops_here IsOver (c ∷ []) destination ((==_iff c 0).0 z))
      λ z.
        if_rule (Outcome (c ∷ []) destination) (is_hex_space c)
          (λ s. over_space-end c destination s)
          λ s.
            rw (lookup_nibble-digit_of c h.0)
              (last-Outcome c destination (digit_of c) (==_false→ne c 0 z) s)
parse_hex-Outcome (c ∷ d ∷ rest) destination h =
    if_rule (Outcome (c ∷ d ∷ rest) destination) (c == 0)
      (λ z. stops_here IsOver (c ∷ d ∷ rest) destination ((==_iff c 0).0 z))
      λ z.
        elim_rule (Outcome (c ∷ d ∷ rest) destination) (is_hex_space c) _ _
          (λ s.
            Outcome-space c (d ∷ rest) destination _ s
              (parse_hex-Outcome (d ∷ rest) destination h.1))
          λ s.
            round-Outcome c d rest destination (hex_pair c d)
              (λ b. parse_hex rest (destination ++ b ∷ [])) (==_false→ne c 0 z) s
              (hex_pair-Round c d h.0 h.1.0)
              (λ b. parse_hex-Outcome rest (destination ++ b ∷ []) h.1.1)

past_ascii :
    (c : ℕ) → 128 ≤ c → ((c == 0) ≡ false) × (is_hex_space c ≡ false) × (lookup_nibble c ≡ no_entry)
unfolding is_hex_space lookup_nibble
past_ascii c h = (
  ne→==_false c 0 (omega arith),
  rw (
    ne→==_false c b'\t' (omega arith),
    ne→==_false c b'\r' (omega arith),
    ne→==_false c b'\n' (omega arith),
    ne→==_false c b' ' (omega arith),
  ),
  rw (le→leb 128 c h) refl,
)

-- A text whose first character lies outside ASCII makes `ParseHex` read before its table.
pub parse_hex-out_of_table :
    (c : ℕ) (rest destination : List ℕ) → 128 ≤ c → parse_hex (c ∷ rest) destination ≡ out_of_table
unfolding parse_hex hex_pair pair_after
parse_hex-out_of_table c [] destination h =
    let (zero_no, space_no, high) = past_ascii c h in rw (zero_no, space_no, high)
parse_hex-out_of_table c (d ∷ rest) destination h =
    let (zero_no, space_no, high) = past_ascii c h in
    rw (zero_no, space_no, parse_hex) (rw (high, hex_pair))
