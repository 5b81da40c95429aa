-- ===== src/Packet/RoundTrip/Flags.antt =====
-- net/json_packet.cc: the flags of an IP header, read back.
use cheaproute.Prelude.{
  ℕ, zero, suc, ◌+◌, ◌%◌, ◌≤◌, ◌<◌, ◌≡◌, refl, Bool, true, false, none, some, List, [], ◌∷◌, ◌++◌,
  arith, ascii, ◌==◌, ==_iff, ◌&&◌, and_parts, ltb, ltb→lt, bit_and, bit_or, if◌then◌else◌, length,
}
use cheaproute.Prelude.Table.{passes, passes-at}
use cheaproute.JsonReader.State.{JsonReader, end_array, string_token, token_eq}
use cheaproute.JsonRoundTrip.Calls.{Call, opens_array, closes_array, text}
use cheaproute.Packet.Deserialize.Parsing.{Platform, Parser, pure, fails}
use cheaproute.Packet.Deserialize.Tables.{c_str, lookup_ip_flag}
use cheaproute.Packet.Deserialize.Headers.{flags_loop, deserialize_flags}
use cheaproute.Packet.RoundTrip.Says.{Front, one}
use cheaproute.Packet.RoundTrip.HeaderCalls.{flag_call}
use cheaproute.Packet.RoundTrip.Yields.{seen-token, seen-str}
use cheaproute.Packet.RoundTrip.Reading.{
  Gives, ◌▸◌, current-Gives, expect_next-Gives, looks, with_fuel-Gives, expect_next_token-Gives,
}

abbrev pub flags_value : Bool → Bool → ℕ
flags_value true true = 0
flags_value true false = 0x2000
flags_value false true = 0x4000
flags_value false false = 0x6000

abbrev count : Bool → ℕ
count absent = if absent then 0 else 1

-- Without the reserved flag, what is read of the flags and the offset makes the field again.
abbrev pub fragment_of : ℕ → ℕ
fragment_of n =
    bit_or (bit_and n 0x1fff) (flags_value (bit_and n 0x4000 == 0) (bit_and n 0x2000 == 0) % 65536)

comes_back : ℕ → Bool
comes_back n = ltb (bit_and n 0x1fff) 8192 && fragment_of n == n

fragment_table : passes comes_back 32768 ≡ true
unfolding passes comes_back
fragment_table = refl

fragment-back : (n : ℕ) → n < 32768 → (ltb (bit_and n 0x1fff) 8192 && fragment_of n == n) ≡ true
unfolding comes_back
fragment-back n h = passes-at comes_back 32768 fragment_table n h

pub offset-small : (n : ℕ) → n < 32768 → bit_and n 0x1fff ≤ 8191
offset-small n h =
    below (ltb→lt _ _ (and_parts (ltb (bit_and n 0x1fff) 8192) _ (fragment-back n h)).0)
  where
    below : bit_and n 0x1fff < 8192 → bit_and n 0x1fff ≤ 8191
    below l = omega arith

pub fragment-lem : (n : ℕ) → n < 32768 → fragment_of n ≡ n
fragment-lem n h = (==_iff _ n).0 (and_parts _ _ (fragment-back n h)).1

df_found : lookup_ip_flag (ascii "DF") ≡ some 0x4000
unfolding lookup_ip_flag
df_found = refl

mf_found : lookup_ip_flag (ascii "MF") ≡ some 0x2000
unfolding lookup_ip_flag
mf_found = refl

calls_enough :
    (df mf : Bool) (rest : List Call)
    → count df + count mf
      ≤ length (flag_call df (ascii "DF") (flag_call mf (ascii "MF") (closes_array ∷ rest)))
calls_enough true true rest = omega arith
calls_enough true false rest = omega arith
calls_enough false true rest = omega arith
calls_enough false false rest = omega arith

-- What a round of the loop does with the token.
abbrev flags_round : ℕ → ℕ → JsonReader → Parser ℕ
flags_round fuel flags r = elim (token_eq r.token_type end_array) [
  | true ↦ pure flags
  | false ↦ elim (token_eq r.token_type string_token) [
    | false ↦ fails (ascii "Unexpected token while deserializing flags")
    | true ↦ elim (lookup_ip_flag r.str_value) [
      | none ↦ fails (ascii "Unknown flag " ++ c_str r.str_value)
      | some flag ↦ flags_loop lookup_ip_flag fuel (bit_or flags flag)
    ]
  ]
]

module _ {env : Platform} where
  last_flag :
      {now : Call} (fuel flags : ℕ)
      → 0 < fuel
      → Gives env now
          (one closes_array)
          closes_array
          (flags_loop lookup_ip_flag fuel flags)
          flags
          []
  unfolding flags_loop
  last_flag zero flags h = absurd (omega arith)
  last_flag (suc fuel) flags h =
      expect_next-Gives closes_array ▸ looks (λ s e. rw (seen-token s.reader closes_array e) refl)

  one_flag :
      {now end : Call} {g : Front} {a : ℕ} (str : List ℕ) (flag n flags : ℕ)
      → lookup_ip_flag str ≡ some flag
      → ((fuel : ℕ)
          → n < fuel
          → Gives env (text str) g end (flags_loop lookup_ip_flag fuel (bit_or flags flag)) a [])
      → (fuel : ℕ) → suc n < fuel
      → Gives env now (λ r. text str ∷ g r) end (flags_loop lookup_ip_flag fuel flags) a []
  unfolding flags_loop lookup_ip_flag
  one_flag str flag n flags e f zero h = absurd (omega arith)
  one_flag {g = g} {a = a} str flag n flags e f (suc fuel) h =
      expect_next-Gives (text str)
      ▸ current-Gives (flags_round fuel flags)
          (λ r d. rw (seen-token r (text str) d, seen-str r (text str) d, e) (f fuel (omega arith)))

  flags_loop-Gives :
      {now : Call} (df mf : Bool) (fuel : ℕ)
      → count df + count mf < fuel
      → Gives env now
          (λ r. flag_call df (ascii "DF") (flag_call mf (ascii "MF") (closes_array ∷ r)))
          closes_array
          (flags_loop lookup_ip_flag fuel 0)
          (flags_value df mf)
          []
  flags_loop-Gives true true fuel h = last_flag fuel 0 h
  flags_loop-Gives true false fuel h =
      one_flag (ascii "MF") 0x2000 0 0 mf_found (λ k l. last_flag k 0x2000 l) fuel h
  flags_loop-Gives false true fuel h =
      one_flag (ascii "DF") 0x4000 0 0 df_found (λ k l. last_flag k 0x4000 l) fuel h
  flags_loop-Gives false false fuel h =
      one_flag (ascii "DF") 0x4000 1 0 df_found
        (one_flag (ascii "MF") 0x2000 0 0x4000 mf_found (λ k l. last_flag k 0x6000 l)) fuel h

  pub deserialize_flags-Gives :
      {now : Call} (df mf : Bool)
      → Gives env now
          (λ r.
            opens_array ∷ flag_call df (ascii "DF") (flag_call mf (ascii "MF") (closes_array ∷ r)))
          closes_array
          (deserialize_flags lookup_ip_flag)
          (flags_value df mf)
          []
  unfolding deserialize_flags
  deserialize_flags-Gives df mf =
      expect_next_token-Gives opens_array
      ▸ with_fuel-Gives (count df + count mf) (λ fuel. flags_loop lookup_ip_flag fuel 0)
          (calls_enough df mf) (flags_loop-Gives df mf)
