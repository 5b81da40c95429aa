-- ===== src/Hex/Grows.antt =====
-- `ParseHex` and what the destination held, on any text.
use cheaproute.Prelude.{
  ℕ, ◌≡◌, ◌∙◌, sym, List, [], ◌∷◌, ◌++◌, append-nil, append_assoc, ◌==◌, if_rule, elim_rule,
}
use cheaproute.Hex.{
  HexResult, parsed, rejected, out_of_table, HexPair, octet, bad_pair, outside, hex_pair,
  is_hex_space, parse_hex, HexLookup, nibble, no_digit, no_entry, lookup_nibble,
}

-- `ParseHex` keeps what the destination held.
abbrev pub Grows : List ℕ → HexResult → Type 0
Grows dest (parsed result) = (more : List ℕ) × (result ≡ dest ++ more)
Grows dest (rejected result) = (more : List ℕ) × (result ≡ dest ++ more)
Grows dest out_of_table = Unit

Grows-cons : (b : ℕ) (dest : List ℕ) (r : HexResult) → Grows (dest ++ b ∷ []) r → Grows dest r
Grows-cons b dest (parsed result) (more, e) = (b ∷ more, e ∙ append_assoc dest (b ∷ []) more)
Grows-cons b dest (rejected result) (more, e) = (b ∷ more, e ∙ append_assoc dest (b ∷ []) more)
Grows-cons b dest out_of_table h = tt

Grows-pair :
    (dest : List ℕ) (p : HexPair) (next : ℕ → HexResult)
    → ((b : ℕ) → Grows (dest ++ b ∷ []) (next b))
    → Grows dest (elim p [ octet b ↦ next b | bad_pair ↦ rejected dest | outside ↦ out_of_table ])
Grows-pair dest (octet b) next h = Grows-cons b dest (next b) (h b)
Grows-pair dest bad_pair next h = ([], sym (append-nil dest))
Grows-pair dest outside next h = tt

pub parse_hex-Grows : (text dest : List ℕ) → Grows dest (parse_hex text dest)
unfolding parse_hex
parse_hex-Grows [] dest = ([], sym (append-nil dest))
parse_hex-Grows (c ∷ []) dest =
    if_rule (Grows dest) (c == 0) (λ _. same)
      (λ _. if_rule (Grows dest) (is_hex_space c) (λ _. same) (λ _. last (lookup_nibble c)))
  where
    same : (more : List ℕ) × (dest ≡ dest ++ more)
    same = ([], sym (append-nil dest))

    last :
        (l : HexLookup)
        → Grows dest (elim l [
          | nibble high ↦ rejected dest
          | no_digit ↦ rejected dest
          | no_entry ↦ out_of_table
        ])
    last (nibble high) = same
    last no_digit = same
    last no_entry = tt
parse_hex-Grows (c ∷ d ∷ rest) dest =
    if_rule (Grows dest) (c == 0) (λ _. ([], sym (append-nil dest)))
      (λ _.
        elim_rule (Grows dest) (is_hex_space c) _ _ (λ _. parse_hex-Grows (d ∷ rest) dest)
          (λ _.
            Grows-pair dest (hex_pair c d) (λ b. parse_hex rest (dest ++ b ∷ []))
              (λ b. parse_hex-Grows rest (dest ++ b ∷ []))))
