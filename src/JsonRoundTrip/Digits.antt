-- ===== src/JsonRoundTrip/Digits.antt =====
-- The digits that base/json_writer.cc prints for a number: their form, and the number they spell.
use cheaproute.Prelude.{
  ℕ, zero, suc, ◌+◌, ◌*◌, ◌/◌, ◌%◌, ◌^◌, ◌≤◌, ◌<◌, ◌≡◌, refl, sym, ◌∙◌, ap, true, List, [], ◌∷◌,
  ◌++◌, append_assoc, arith, ltb, le→leb, ltb→lt, ltb_false→le, inl, inr, ◌⊎◌, Bool-cases, All,
  All-append,
}
use native.Mathlib.Nat.{pow-suc}
use cheaproute.JsonReader.Number.{is_digit, digits_value}
use cheaproute.JsonWriter.Text.{digits}

abbrev pub IsDigit : ℕ → Type 0
IsDigit ch = (b'0' ≤ ch) × (ch ≤ b'9')

pub digit_tests : (ch : ℕ) → IsDigit ch → (is_digit ch ≡ true)
digit_tests ch (h, k) = rw (le→leb b'0' ch h, le→leb ch b'9' k)

digits_value_step :
    (v d : ℕ) (text : List ℕ)
    → d < 10
    → digits_value v ((b'0' + d) ∷ text) ≡ digits_value (v * 10 + d) text
unfolding digits_value
digits_value_step v d text h =
    rw (digit_tests (b'0' + d) (omega arith))
      (ap (λ k. digits_value (v * 10 + k) text) (omega arith))

fuel_left : (fuel n : ℕ) → n < 10 ^ suc fuel → 10 ≤ n → (0 < fuel) × (n / 10 < 10 ^ fuel)
fuel_left zero n h k = absurd (omega arith)
fuel_left (suc fuel) n h k = (omega arith, omega (arith, pow-suc 10 (suc fuel)))

-- The number that the printed digits stand for, in front of the digits of `text`.
pub digits_value-digits :
    (fuel n : ℕ) (text : List ℕ)
    → n < 10 ^ fuel
    → 0 < fuel
    → digits_value 0 (digits fuel n text) ≡ digits_value n text
unfolding digits
digits_value-digits zero n text h k = absurd (omega arith)
digits_value-digits (suc fuel) n text h k = elim (Bool-cases (ltb n 10)) [
  | inl small ↦
      rw small (
        digits_value_step 0 n text (ltb→lt n 10 small)
        ∙ ap (λ k. digits_value k text) (omega arith))
  | inr large ↦
      let (room, less) = fuel_left fuel n h (ltb_false→le n 10 large) in
      rw large (
        digits_value-digits fuel (n / 10) ((b'0' + n % 10) ∷ text) less room
        ∙ digits_value_step (n / 10) (n % 10) text (omega arith)
        ∙ ap (λ k. digits_value k text) (omega arith))
]

-- A digit that is not the leading zero of a longer number.
abbrev pub LeadsWell : ℕ → List ℕ → Type 0
LeadsWell ch rest = (b'0' < ch) ⊎ (rest ≡ [])

abbrev pub Printed : ℕ → List ℕ → List ℕ → Type 0
Printed n text result =
    (ch : ℕ) × (rest : List ℕ) × (result ≡ ch ∷ (rest ++ text))
    × IsDigit ch
    × All IsDigit rest
    × LeadsWell ch rest
    × (0 < n → b'0' < ch)

pub digits-Printed :
    (fuel n : ℕ) (text : List ℕ) → n < 10 ^ fuel → 0 < fuel → Printed n text (digits fuel n text)
unfolding digits
digits-Printed zero n text h k = absurd (omega arith)
digits-Printed (suc fuel) n text h k = elim (Bool-cases (ltb n 10)) [
  | inl small ↦
      rw small
        (b'0' + n, [], refl, omega (arith, ltb→lt n 10 small), tt, inr refl, λ p. omega arith)
  | inr large ↦
      let big = ltb_false→le n 10 large in
      let (room, less) = fuel_left fuel n h big in
      let last = b'0' + n % 10 in
      let (ch, rest, e, d, ds, l, p) = digits-Printed fuel (n / 10) (last ∷ text) less room in
      rw large (
        ch,
        rest ++ last ∷ [],
        e ∙ ap (λ t. ch ∷ t) (sym (append_assoc rest (last ∷ []) text)),
        d,
        All-append IsDigit rest (last ∷ []) ds (omega arith),
        inl (p (omega (arith, big))),
        λ _. p (omega (arith, big)),
      )
]
