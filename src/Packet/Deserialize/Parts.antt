-- ===== src/Packet/Deserialize/Parts.antt =====
-- net/json_packet.cc: the functions that expect a token, a name or a value return, take what they read
-- and leave the destination alone.
use cheaproute.Prelude.{
  ℕ, ◌+◌, ◌≤◌, ◌%◌, ◌≡◌, refl, Bool, true, false, ◌&&◌, Option, none, some, List, [], ◌∷◌, ◌++◌,
  arith, All, IsByte, length, leb, leb→le, and_parts, if◌then◌else◌, if_rule, ascii,
}
use cheaproute.Prelude.Int.{ℤ, pos, negsuc}
use Prim.Native.String.{String}
use cheaproute.JsonReader.State.{JsonToken, integer, property_name, string_token, token_eq}
use cheaproute.Packet.Names.{Name}
use cheaproute.Packet.Deserialize.Tables.{c_str, text_eq, find_from, lookup_name}
use cheaproute.Packet.Deserialize.Expect.{
  expect_current, expect_next_token, expect_current_name, expect_next_name, found_or_unknown,
  expect_enum_value, expect_enum_property, value_in, value_or_error, expect_current_value,
  expect_value, current_property, next_property, next_property_in, is_out_of_range,
}
use cheaproute.Packet.Deserialize.Headers.{address_or_error, parse_address, expect_ip4_value}
use cheaproute.Packet.Deserialize.Returning.{
  Ends, Returns, Any, IsEmpty, ◌▹◌, pure-Returns, fails-Returns, current-Returns, prefixed-Returns,
  check-Ends,
}
use cheaproute.Packet.Deserialize.Taking.{expect_next-Returns}

pub expect_current-Returns : (token : JsonToken) → Returns Any IsEmpty (expect_current token)
unfolding expect_current
expect_current-Returns token = record {
  run = λ env s g v. check-Ends (token_eq s.reader.token_type token) s _ v;
}

pub expect_next_token-Returns : (token : JsonToken) → Returns Any IsEmpty (expect_next_token token)
unfolding expect_next_token
expect_next_token-Returns token = expect_next-Returns ▹ λ _ _. expect_current-Returns token

pub expect_current_name-Returns : (name : String) → Returns Any IsEmpty (expect_current_name name)
unfolding expect_current_name
expect_current_name-Returns name = record {
  run = λ env s g v.
      if_rule (Ends Any IsEmpty (length s.reader.stream) s.dest)
        (token_eq s.reader.token_type property_name)
        (λ _. check-Ends (text_eq s.reader.str_value (ascii name)) s _ v) (λ _. tt);
}

pub expect_next_name-Returns : (name : String) → Returns Any IsEmpty (expect_next_name name)
unfolding expect_next_name
expect_next_name-Returns name = expect_next-Returns ▹ λ _ _. expect_current_name-Returns name

-- All values that the lookup finds are in `Q`.
abbrev pub Finds : (ℕ → Type 0) → (List ℕ → Option ℕ) → Type 0
Finds Q lookup = (str : List ℕ) (value : ℕ) → lookup str ≡ some value → Q value

pub found_or_unknown-Returns :
    {Q : ℕ → Type 0} (str : List ℕ) (o : Option ℕ)
    → ((value : ℕ) → o ≡ some value → Q value)
    → Returns Q IsEmpty (found_or_unknown str o)
unfolding found_or_unknown
found_or_unknown-Returns str none h = fails-Returns _
found_or_unknown-Returns str (some value) h = pure-Returns value (h value refl)

pub expect_enum_value-Returns :
    {Q : ℕ → Type 0} (lookup : List ℕ → Option ℕ)
    → Finds Q lookup
    → Returns Q IsEmpty (expect_enum_value lookup)
unfolding expect_enum_value
expect_enum_value-Returns lookup h = expect_next-Returns ▹ λ _ _.
    (current-Returns ▹ λ r _.
    found_or_unknown-Returns r.str_value (lookup r.str_value) (h r.str_value))

pub expect_enum_property-Returns :
    {Q : ℕ → Type 0} (name : String) (lookup : List ℕ → Option ℕ)
    → Finds Q lookup
    → Returns Q IsEmpty (expect_enum_property name lookup)
unfolding expect_enum_property
expect_enum_property-Returns name lookup h = expect_next_name-Returns name ▹ λ _ _.
    prefixed-Returns (ascii "Error with property '" ++ (ascii name ++ ascii "'"))
      (expect_enum_value-Returns lookup h)

abbrev pub InRange : ℕ → ℕ → ℕ → Type 0
InRange low high n = (low ≤ n) × (n ≤ high)

value_or_error-Returns :
    (low high : ℕ) (value : ℤ)
    → Returns (InRange low high) IsEmpty (value_or_error low high value (value_in low high value))
unfolding value_or_error value_in
value_or_error-Returns low high (pos n) = in_range (leb low n && leb n high) refl
  where
    in_range :
        (b : Bool)
        → (leb low n && leb n high) ≡ b
        → Returns
            (InRange low high)
            IsEmpty
            (value_or_error low high (pos n) (if b then some n else none))
    in_range true e =
        let (l, h) = and_parts (leb low n) (leb n high) e in
        pure-Returns n (leb→le low n l, leb→le n high h)
    in_range false e = fails-Returns _
value_or_error-Returns low high (negsuc n) = fails-Returns _

expect_current_value-Returns :
    (low high : ℕ) → Returns (InRange low high) IsEmpty (expect_current_value low high)
unfolding expect_current_value
expect_current_value-Returns low high = record {
  run = λ env s g v.
      if_rule (Ends (InRange low high) IsEmpty (length s.reader.stream) s.dest)
        (token_eq s.reader.token_type integer)
        (λ _. (value_or_error-Returns low high s.reader.int_value).run env s g v)
        (λ _.
          if_rule (Ends (InRange low high) IsEmpty (length s.reader.stream) s.dest)
            (is_out_of_range s.reader.error_code) (λ _. tt) (λ _. tt));
}

pub expect_value-Returns :
    (low high : ℕ) → Returns (InRange low high) IsEmpty (expect_value low high)
unfolding expect_value
expect_value-Returns low high = expect_next-Returns ▹ λ _ _. expect_current_value-Returns low high

pub current_property-Returns :
    (name : String) (high : ℕ) → Returns (InRange 0 high) IsEmpty (current_property name high)
unfolding current_property
current_property-Returns name high = expect_current_name-Returns name ▹ λ _ _.
    prefixed-Returns (ascii "Error with property '" ++ (ascii name ++ ascii "'"))
      (expect_value-Returns 0 high)

pub next_property-Returns :
    (name : String) (high : ℕ) → Returns (InRange 0 high) IsEmpty (next_property name high)
unfolding next_property
next_property-Returns name high = expect_next-Returns ▹ λ _ _. current_property-Returns name high

pub next_property_in-Returns :
    (name : String) (low high : ℕ)
    → Returns (InRange low high) IsEmpty (next_property_in name low high)
unfolding next_property_in
next_property_in-Returns name low high = expect_next_name-Returns name ▹ λ _ _.
    prefixed-Returns (ascii "Error parsing property " ++ ascii name) (expect_value-Returns low high)

abbrev pub IsAddress : List ℕ → Type 0
IsAddress address = (length address ≡ 4) × All IsByte address

address_or_error-Returns :
    (str : List ℕ) (o : Option (List ℕ))
    → ((address : List ℕ) → o ≡ some address → IsAddress address)
    → Returns IsAddress IsEmpty (address_or_error str o)
unfolding address_or_error
address_or_error-Returns str none h = fails-Returns _
address_or_error-Returns str (some address) h = pure-Returns address (h address refl)

pub expect_ip4_value-Returns : Returns IsAddress IsEmpty expect_ip4_value
unfolding expect_ip4_value parse_address
expect_ip4_value-Returns = expect_next_token-Returns string_token ▹ λ _ _.
    (current-Returns ▹ λ r _. record {
      run = λ env s g v.
          (address_or_error-Returns r.str_value (env.inet_pton (c_str r.str_value))
              (g (c_str r.str_value))).run
            env s g v;
    })

-- The tables hold bytes.
find_from-IsByte :
    (i : ℕ) (names : List Name) (str : List ℕ) (found : Option ℕ)
    → ((value : ℕ) → found ≡ some value → IsByte value)
    → (value : ℕ) → find_from (λ j. j % 256) i names str found ≡ some value
    → IsByte value
unfolding find_from
find_from-IsByte i [] str found h = h
find_from-IsByte i (none ∷ names) str found h = find_from-IsByte (i + 1) names str found h
find_from-IsByte i (some name ∷ names) str found h =
    find_from-IsByte (i + 1) names str (if text_eq name str then some (i % 256) else found) (
      if_rule (λ o. (value : ℕ) → o ≡ some value → IsByte value) (text_eq name str)
        (λ _ value e. ground arith) (λ _. h))

pub lookup_name-Finds : (names : List Name) → Finds IsByte (lookup_name names)
unfolding lookup_name
lookup_name-Finds names str = find_from-IsByte 0 names str none (λ value e. cc)
