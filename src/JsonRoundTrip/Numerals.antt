-- ===== src/JsonRoundTrip/Numerals.antt =====
-- What base/json_writer.cc prints for an integer, read by `JsonReader::Next`.
use cheaproute.Prelude.{
  ℕ, ◌≡◌, refl, sym, ◌∙◌, subst, Bool, true, false, List, [], ◌∷◌, ◌++◌, ◌==◌, ◌⊎◌, inl, inr, arith,
  ne→==_false,
}
use cheaproute.Prelude.Int.{ℤ, pos, negsuc}
use cheaproute.JsonReader.State.{JsonMode, JsonToken, JsonReader}
use cheaproute.JsonReader.{is_space, read_number, read_value, next}
use cheaproute.JsonWriter.Text.{signed_decimal}
use cheaproute.JsonRoundTrip.Digits.{IsDigit, digit_tests}
use cheaproute.JsonRoundTrip.Scans.{EndsNumber, scan_number-decimal}
use cheaproute.JsonRoundTrip.Integers.{IsInt64, read_integer, read_number-signed_decimal}
use cheaproute.JsonRoundTrip.Values.{Before, next-value}

abbrev OpensNumber : ℕ → Type 0
OpensNumber ch = (ch ≡ b'-') ⊎ IsDigit ch

signed_decimal-OpensNumber :
    (v : ℤ) (ch : ℕ) (text : List ℕ) → IsInt64 v → signed_decimal v ≡ ch ∷ text → OpensNumber ch
unfolding signed_decimal
signed_decimal-OpensNumber (pos n) ch text h e =
    let (ch', rest, e', d, s, t) = scan_number-decimal n [] (omega arith) tt in
    inr (subst IsDigit (first ch' rest (sym e' ∙ e)) d)
  where
    first : (c : ℕ) (rest : List ℕ) → c ∷ rest ≡ ch ∷ text → c ≡ ch
    first c rest e = cc
signed_decimal-OpensNumber (negsuc n) ch text h e = inl cc

opens_value : (ch : ℕ) → OpensNumber ch → (is_space ch ≡ false) × ((ch == b']') ≡ false)
opens_value ch (inl e) = rw e (refl, refl)
opens_value ch (inr (h, k)) = (
  rw
      (
        ne→==_false ch b' ' (λ e. absurd (omega arith)),
        ne→==_false ch b'\n' (λ e. absurd (omega arith)),
        ne→==_false ch b'\r' (λ e. absurd (omega arith)),
        ne→==_false ch b'\t' (λ e. absurd (omega arith)),
      )
      refl,
  ne→==_false ch b']' (λ e. absurd (omega arith)),
)

module _ (strtod_overflows : List ℕ → Bool) where
  read_value-number :
      (ch : ℕ) (r : JsonReader)
      → OpensNumber ch
      → read_value strtod_overflows ch r ≡ read_number strtod_overflows ch r
  unfolding read_value
  read_value-number ch r (inl e) = rw e refl
  read_value-number ch r (inr (h, k)) =
      rw
        (
          ne→==_false ch b'{' (λ e. absurd (omega arith)),
          ne→==_false ch b'[' (λ e. absurd (omega arith)),
          ne→==_false ch b'"' (λ e. absurd (omega arith)),
          ne→==_false ch b'\'' (λ e. absurd (omega arith)),
          ne→==_false ch b'-' (λ e. absurd (omega arith)),
          digit_tests ch (h, k),
        )
        refl

  -- Wherever a value may stand, behind any white space and the comma that an array wants, `Next`
  -- reads back what `WriteInteger` printed for an `int64_t`, and leaves what follows, if that ends a
  -- number.
  pub next-signed_decimal :
      {mode : JsonMode} {token : JsonToken} {before : List ℕ} (v : ℤ) (tail : List ℕ)
      (r : JsonReader)
      → Before mode token before
      → IsInt64 v
      → EndsNumber tail
      → next strtod_overflows (record r {
        stream = before ++ (signed_decimal v ++ tail);
        mode = mode;
        token_type = token;
      })
        ≡ (true, record (read_integer v (signed_decimal v) tail r) { mode = mode })
  next-signed_decimal {mode} {token} {before} v tail r b h k =
      let (ch, text, e, reads) =
        read_number-signed_decimal strtod_overflows v tail
          (record r { mode = mode; token_type = token }) h k in
      let opens : OpensNumber ch = signed_decimal-OpensNumber v ch text h e in
      let (no_space, no_end) = opens_value ch opens in
      subst
        (λ t.
          next strtod_overflows
            (record r { stream = before ++ (t ++ tail); mode = mode; token_type = token })
          ≡ (true, record (read_integer v t tail r) { mode = mode }))
        (sym e)
        (next-value strtod_overflows ch (text ++ tail) r b no_space no_end
          ∙ (read_value-number ch
                (record r { stream = text ++ tail; mode = mode; token_type = token }) opens
              ∙ reads))
