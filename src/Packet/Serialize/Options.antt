-- ===== src/Packet/Serialize/Options.antt =====
-- net/json_packet.cc: which option lists `WriteTcpHeader`'s loop gets through.
use cheaproute.Prelude.{
  All, IsByte, ◌^◌, ascii, true, ℕ, zero, suc, ◌-◌, ◌≤◌, ◌<◌, List, [], ◌∷◌, ◌==◌, ltb, length,
  drop, length-drop, ◌≡◌, ◌≢◌, refl, arith, elim_rule, if_rule, ap, ◌∙◌, ltb→lt, ==_iff,
  ==_false→ne, ltb_false→le,
}
use cheaproute.Prelude.Int.{ℤ}
use Prim.Native.String.{String}
use cheaproute.Packet.Traced.{IsWithin}
use cheaproute.Packet.Texts.{is_chars, All-drop}
use cheaproute.Packet.Moves.Fields.{byte_fits, u16_fits, u32_fits}
use cheaproute.JsonWriter.Values.{Value, first, later}
use cheaproute.JsonWriter.{middle_array, JsonWriterMode, JsonWriter}
use cheaproute.Packet.Fields.{byte, u16, u32}
use cheaproute.Packet.Writing.{Action, out_of_fuel, wrote, and_then}
use cheaproute.Packet.Moves.{int-Moves, uint-Moves}
use cheaproute.Packet.Moves.Arrays.{
  Fills, opened, filled, closed, done-Fills, item-Fills, then-Fills, if-Fills, string-Fills,
}
use cheaproute.Packet.Serialize.Tcp.{
  write_tcp_option, write_bare_option, write_option, options_loop,
}

-- The option lists that come to an end: from the first option on, by NOP and by options with a
-- length of at least 1, the loop reaches an EOL, a last byte, an option that is cut short, or the
-- end.
pub data Advances : List ℕ → Type 0 where
  ended : Advances []
  last : {kind : ℕ} → Advances (kind ∷ [])
  nop : {size : ℕ} {rest : List ℕ} → Advances (size ∷ rest) → Advances (1 ∷ size ∷ rest)
  eol : (rest : List ℕ) → Advances (0 ∷ rest)
  cut :
      {kind size : ℕ} {rest : List ℕ}
      → 2 ≤ kind
      → length (kind ∷ size ∷ rest) < size
      → Advances (kind ∷ size ∷ rest)
  option :
      {kind size : ℕ} {rest : List ℕ}
      → 2 ≤ kind
      → 1 ≤ size
      → Advances (drop size (kind ∷ size ∷ rest))
      → Advances (kind ∷ size ∷ rest)

items-IsWithin : {m : JsonWriterMode} (v : Value m middle_array) → IsWithin v
items-IsWithin first = tt
items-IsWithin later = tt

bare-Fills :
    {P : Type 0} {st : List JsonWriterMode} {p : ℤ} (name : String)
    → is_chars (ascii name) ≡ true
    → Fills P st p (write_bare_option name)
unfolding write_bare_option
bare-Fills name c = item-Fills (λ m v. closed (filled (opened v) (string-Fills name c)))

option-Fills :
    {P : Type 0} {st : List JsonWriterMode} {p : ℤ} (name : String) (value : ℕ)
    → is_chars (ascii name) ≡ true
    → (P → value < 2 ^ 63)
    → Fills P st p (write_tcp_option name value)
unfolding write_tcp_option
option-Fills name value c f = item-Fills (λ m v. closed (
    filled (filled (opened v) (string-Fills name c))
      (item-Fills (λ k u. int-Moves u value (items-IsWithin u) f))))

write_option-Fills :
    {P : Type 0} {st : List JsonWriterMode} {p : ℤ} (kind size : ℕ) (bytes : List ℕ)
    → (P → All IsByte bytes)
    → Fills P st p (write_option kind size bytes)
unfolding write_option
write_option-Fills kind size bytes b =
    if-Fills (kind == 2)
      (if-Fills (size == 4) (option-Fills "maxSegmentSize" (u16 bytes 2) refl (u16_fits bytes 2 b))
        done-Fills)
      (if-Fills (kind == 3)
        (if-Fills (size == 3) (option-Fills "windowScale" (byte bytes 2) refl (byte_fits bytes 2 b))
          done-Fills)
        (if-Fills (kind == 4) (if-Fills (size == 2) (bare-Fills "sackPermitted" refl) done-Fills) (
          if-Fills (kind == 8)
            (if-Fills (size == 10)
              (item-Fills (λ m v. closed (
                filled
                  (filled (filled (opened v) (string-Fills "timestamp" refl)) (
                    item-Fills
                      (λ k u. uint-Moves u (u32 bytes 2) (items-IsWithin u) (u32_fits bytes 2 b))))
                  (item-Fills
                    (λ k u. uint-Moves u (u32 bytes 6) (items-IsWithin u) (u32_fits bytes 6 b))))))
              done-Fills)
            done-Fills)))

-- A round of the loop, when what follows a NOP and what follows the option can be written.
round-Fills :
    {P : Type 0} {st : List JsonWriterMode} {p : ℤ} (fuel kind size : ℕ) (rest : List ℕ)
    → (P → All IsByte (kind ∷ size ∷ rest))
    → (kind ≡ 1 → Fills P st p (options_loop fuel (size ∷ rest)))
    → (kind ≢ 1
        → kind ≢ 0
        → size ≤ length (kind ∷ size ∷ rest)
        → Fills P st p (options_loop fuel (drop size (kind ∷ size ∷ rest))))
    → Fills P st p (options_loop (suc fuel) (kind ∷ size ∷ rest))
unfolding options_loop
round-Fills {P} {st} {p} fuel kind size rest b f g =
    elim_rule (Fills P st p) (kind == 1) _ _
      (λ e. then-Fills (bare-Fills "NOP" refl) (f ((==_iff kind 1).0 e)))
      (λ e.
        elim_rule (Fills P st p) (kind == 0) _ _ (λ z. bare-Fills "EOL" refl)
          (λ z.
            elim_rule (Fills P st p) (ltb (length (kind ∷ size ∷ rest)) size) _ _ (λ l. done-Fills)
              (λ l.
                then-Fills (write_option-Fills kind size (kind ∷ size ∷ rest) b)
                  (g (==_false→ne kind 1 e) (==_false→ne kind 0 z) (ltb_false→le _ size l)))))

-- The loop over an option list that comes to an end has fuel enough with the length of the list.
pub options_loop-Fills :
    {P : Type 0} {st : List JsonWriterMode} {p : ℤ} {options : List ℕ} (fuel : ℕ)
    → Advances options
    → length options ≤ fuel
    → (P → All IsByte options)
    → Fills P st p (options_loop fuel options)
unfolding options_loop
options_loop-Fills fuel ended h b = done-Fills
options_loop-Fills zero last h b = absurd (omega arith)
options_loop-Fills (suc fuel) (last {kind}) h b =
    if-Fills (kind == 1) (bare-Fills "NOP" refl)
      (if-Fills (kind == 0) (bare-Fills "EOL" refl) done-Fills)
options_loop-Fills zero (nop a) h b = absurd (omega arith)
options_loop-Fills (suc fuel) (nop {size} {rest} a) h b =
    round-Fills fuel 1 size rest b (λ e. options_loop-Fills fuel a (omega arith) (λ q. (b q).1))
      (λ n. absurd (n refl))
options_loop-Fills zero (eol rest) h b = absurd (omega arith)
options_loop-Fills (suc fuel) (eol []) h b = bare-Fills "EOL" refl
options_loop-Fills (suc fuel) (eol (size ∷ rest)) h b = bare-Fills "EOL" refl
options_loop-Fills zero (cut k l) h b = absurd (omega arith)
options_loop-Fills (suc fuel) (cut {kind} {size} {rest} k l) h b =
    round-Fills fuel kind size rest b (λ e. absurd (omega arith)) (λ n z c. absurd (omega arith))
options_loop-Fills zero (option k l a) h b = absurd (omega arith)
options_loop-Fills (suc fuel) (option {kind} {size} {rest} k l a) h b =
    round-Fills fuel kind size rest b (λ e. absurd (omega arith))
      (λ n z c.
        options_loop-Fills fuel a
          (shorter (drop size (kind ∷ size ∷ rest)) (length-drop size (kind ∷ size ∷ rest)))
          (λ q. All-drop IsByte size (kind ∷ size ∷ rest) (b q)))
  where
    shorter :
        (bytes : List ℕ) → length bytes ≡ length (kind ∷ size ∷ rest) - size → length bytes ≤ fuel
    shorter bytes e = omega arith

-- An option with a length of 0 is not written.
write_option_zero :
    (kind : ℕ) (bytes : List ℕ) (w : JsonWriter) → write_option kind 0 bytes w ≡ wrote w
unfolding write_option
write_option_zero kind bytes w =
    if_rule (λ (a : Action). a w ≡ wrote w) (kind == 2) (λ e. refl)
      (λ e.
        if_rule (λ (a : Action). a w ≡ wrote w) (kind == 3) (λ f. refl)
          (λ f.
            if_rule (λ (a : Action). a w ≡ wrote w) (kind == 4) (λ g. refl)
              (λ g. if_rule (λ (a : Action). a w ≡ wrote w) (kind == 8) (λ h. refl) (λ h. refl))))

-- At an option of a kind other than EOL and NOP with a length of 0, no fuel is enough for the
-- loop over the options: the C++ loop does not end.
pub options_loop_stuck :
    (kind : ℕ) (rest : List ℕ) (fuel : ℕ) (w : JsonWriter)
    → 2 ≤ kind
    → options_loop fuel (kind ∷ 0 ∷ rest) w ≡ out_of_fuel
unfolding options_loop
options_loop_stuck kind rest zero w h = refl
options_loop_stuck kind rest (suc fuel) w h =
    elim_rule (λ (a : Action). a w ≡ out_of_fuel) (kind == 1) _ _
      (λ e. absurd (not_one ((==_iff kind 1).0 e)))
      (λ e.
        elim_rule (λ (a : Action). a w ≡ out_of_fuel) (kind == 0) _ _
          (λ z. absurd (not_zero ((==_iff kind 0).0 z)))
          (λ z.
            elim_rule (λ (a : Action). a w ≡ out_of_fuel) (ltb (length (kind ∷ 0 ∷ rest)) 0) _ _
              (λ l. absurd (not_less (ltb→lt (length (kind ∷ 0 ∷ rest)) 0 l)))
              (λ l.
                ap (λ o. and_then o (options_loop fuel (kind ∷ 0 ∷ rest)))
                  (write_option_zero kind (kind ∷ 0 ∷ rest) w)
                ∙ options_loop_stuck kind rest fuel w h)))
  where
    not_one : kind ≡ 1 → ⊥
    not_one e = omega arith

    not_zero : kind ≡ 0 → ⊥
    not_zero e = omega arith

    not_less : {k : ℕ} → k < 0 → ⊥
    not_less l = omega arith
