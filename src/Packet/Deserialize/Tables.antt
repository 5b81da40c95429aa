-- ===== src/Packet/Deserialize/Tables.antt =====
-- net/json_packet.cc: the tables that read names back.
use cheaproute.Prelude.{
  ℕ, ◌+◌, ◌%◌, ◌^◌, Bool, true, false, ◌&&◌, Option, none, some, List, [], ◌∷◌, ◌==◌, ascii,
  if◌then◌else◌,
}
use cheaproute.Packet.Names.{Name}

-- A string as `c_str` shows it.
unfoldable pub c_str : List ℕ → List ℕ
c_str [] = []
c_str (ch ∷ str) = if ch == 0 then [] else ch ∷ c_str str

-- `==` of two strings.
unfoldable pub text_eq : List ℕ → List ℕ → Bool
text_eq [] [] = true
text_eq [] (y ∷ ys) = false
text_eq (x ∷ xs) [] = false
text_eq (x ∷ xs) (y ∷ ys) = x == y && text_eq xs ys

-- `find` in the map that the loop over the names from the `i`th on fills: a later entry replaces an
-- earlier one of the same name.
unfoldable pub find_from : (ℕ → ℕ) → ℕ → List Name → List ℕ → Option ℕ → Option ℕ
unfolding text_eq
find_from value i [] str found = found
find_from value i (none ∷ names) str found = find_from value (i + 1) names str found
find_from value i (some name ∷ names) str found =
    find_from value (i + 1) names str (if text_eq name str then some (value i) else found)

-- `CreateLookupTable<uint8_t>`
unfoldable pub lookup_name : List Name → List ℕ → Option ℕ
unfolding find_from
lookup_name names str = find_from (λ i. i % 256) 0 names str none

-- `CreateFlagLookupTable<int>`
unfoldable pub lookup_flag : List Name → List ℕ → Option ℕ
unfolding find_from
lookup_flag names str = find_from (λ i. 2 ^ i) 0 names str none

-- `CreateIpFlagLookupTable`
unfoldable pub lookup_ip_flag : List ℕ → Option ℕ
unfolding text_eq
lookup_ip_flag str =
    if text_eq (ascii "DF") str
    then some 0x4000
    else if text_eq (ascii "MF") str
    then some 0x2000
    else none
