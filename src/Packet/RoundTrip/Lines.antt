-- ===== src/Packet/RoundTrip/Lines.antt =====
-- net/json_packet.cc: the lines of a packet's data, read back.
use cheaproute.Prelude.{
  ℕ, zero, suc, ◌-◌, ◌≤◌, ◌<◌, ◌≡◌, refl, sym, ◌∙◌, ap, subst, Bool, true, false, List, [], ◌∷◌,
  ◌++◌, append-nil, append_assoc, All, IsByte, arith, ascii, ◌==◌, ltb, ltb_false→le, length, take,
  drop, length-drop, take-append-drop, if◌then◌else◌,
}
use cheaproute.Hex.{parsed, parse_hex}
use cheaproute.Hex.RoundTrip.{parse_hex-format_hex}
use cheaproute.JsonReader.State.{JsonReader, end_array, string_token, token_eq}
use cheaproute.JsonRoundTrip.Calls.{Call, closes_array, text}
use cheaproute.Packet.Texts.{All-take, All-drop}
use cheaproute.Packet.Deserialize.Parsing.{Platform, Parser, pure, fails}
use cheaproute.Packet.Deserialize.Expect.{token_name}
use cheaproute.Packet.Deserialize.Whole.{lines_loop}
use cheaproute.Packet.RoundTrip.DataCalls.{all_texts, text_lines_of, hex_lines_of}
use cheaproute.Packet.RoundTrip.Yields.{seen-token, seen-str}
use cheaproute.Packet.RoundTrip.Reading.{Gives, ◌▸◌, pure-Gives, current-Gives, expect_next-Gives}

abbrev pub joined : List (List ℕ) → List ℕ
joined [] = []
joined (str ∷ strs) = str ++ joined strs

pub text_lines_of-joined : (line bytes : List ℕ) → joined (text_lines_of line bytes) ≡ line ++ bytes
text_lines_of-joined line [] = choose (ltb 0 (length line)) refl
  where
    nothing : (xs : List ℕ) → length xs ≤ 0 → [] ≡ xs
    nothing [] h = refl
    nothing (x ∷ xs) h = absurd (omega arith)

    choose :
        (some_text : Bool)
        → ltb 0 (length line) ≡ some_text
        → joined (if some_text then line ∷ [] else []) ≡ line ++ []
    choose true e = refl
    choose false e = nothing line (ltb_false→le 0 (length line) e) ∙ sym (append-nil line)
text_lines_of-joined line (b ∷ bytes) =
    choose (b == b'\n') (text_lines_of-joined [] bytes)
      (text_lines_of-joined (line ++ b ∷ []) bytes)
  where
    choose :
        (ends_line : Bool)
        → joined (text_lines_of [] bytes) ≡ bytes
        → joined (text_lines_of (line ++ b ∷ []) bytes) ≡ (line ++ b ∷ []) ++ bytes
        → joined (elim ends_line [
          | true ↦ (line ++ b ∷ []) ∷ text_lines_of [] bytes
          | false ↦ text_lines_of (line ++ b ∷ []) bytes
        ])
          ≡ line ++ b ∷ bytes
    choose true e f = ap (λ t. (line ++ b ∷ []) ++ t) e ∙ append_assoc line (b ∷ []) bytes
    choose false e f = f ∙ append_assoc line (b ∷ []) bytes

-- `ParseHex` of the lines that were written, one behind the other.
pub parse_hex-lines :
    (fuel : ℕ) (bytes destination : List ℕ)
    → length bytes ≤ fuel
    → All IsByte bytes
    → parse_hex (joined (hex_lines_of fuel bytes)) destination ≡ parsed (destination ++ bytes)
unfolding parse_hex
parse_hex-lines fuel [] destination h b = ap parsed (sym (append-nil destination))
parse_hex-lines zero (x ∷ bytes) destination h b = absurd (omega arith)
parse_hex-lines (suc fuel) (x ∷ bytes) destination h b =
    parse_hex-format_hex (take 16 (x ∷ bytes)) _ destination (All-take IsByte 16 (x ∷ bytes) b)
    ∙ parse_hex-lines fuel (drop 16 (x ∷ bytes)) (destination ++ take 16 (x ∷ bytes))
        (shorter (length-drop 16 (x ∷ bytes))) (All-drop IsByte 16 (x ∷ bytes) b)
    ∙ ap parsed (
        append_assoc destination (take 16 (x ∷ bytes)) (drop 16 (x ∷ bytes))
        ∙ ap (λ t. destination ++ t) (take-append-drop 16 (x ∷ bytes)))
  where
    shorter :
        length (drop 16 (x ∷ bytes)) ≡ length (x ∷ bytes) - 16 → length (drop 16 (x ∷ bytes)) ≤ fuel
    shorter e = omega arith

pub lines_enough :
    (strs : List (List ℕ)) (rest : List Call)
    → length strs ≤ length (all_texts strs (closes_array ∷ rest))
lines_enough [] rest = omega arith
lines_enough (str ∷ strs) rest = omega (arith, lines_enough strs rest)

-- What a round of the loop over the lines does with the token.
abbrev lines_round : ℕ → List ℕ → JsonReader → Parser (List ℕ)
lines_round fuel str r = elim (token_eq r.token_type end_array) [
  | true ↦ pure str
  | false ↦ elim (token_eq r.token_type string_token) [
    | false ↦
        fails
          (ascii "Unexpected token '" ++ (token_name r.token_type ++ ascii "', expected 'String'"))
    | true ↦ lines_loop fuel (str ++ r.str_value)
  ]
]

module _ {env : Platform} where
  pub lines_loop-Gives :
      {now : Call} (strs : List (List ℕ)) (str : List ℕ) (fuel : ℕ)
      → length strs < fuel
      → Gives env now
          (λ r. all_texts strs (closes_array ∷ r))
          closes_array
          (lines_loop fuel str)
          (str ++ joined strs)
          []
  unfolding lines_loop token_name
  lines_loop-Gives strs str zero h = absurd (omega arith)
  lines_loop-Gives [] str (suc fuel) h =
      expect_next-Gives closes_array
      ▸ current-Gives (lines_round fuel str)
          (λ r d. rw (seen-token r closes_array d, append-nil str) (pure-Gives str))
  lines_loop-Gives (next ∷ strs) str (suc fuel) h =
      expect_next-Gives (text next)
      ▸ current-Gives (lines_round fuel str) (λ r d.
        rw (seen-token r (text next) d, seen-str r (text next) d)
          (subst
            (λ t.
              Gives env (text next) (λ r. all_texts strs (closes_array ∷ r)) closes_array
                (lines_loop fuel (str ++ next)) t [])
            (append_assoc str next (joined strs))
            (lines_loop-Gives strs (str ++ next) fuel (omega arith))))
