-- ===== src/JsonRoundTrip/ValueSteps.antt =====
-- The calls of the printer that write a value other than a container, each read by one `Next`.
use cheaproute.Prelude.{
  subst, ℕ, ◌<◌, ◌≡◌, ◌≢◌, refl, sym, Bool, true, false, some, List, [], ◌++◌, All, arith, length,
  ascii, if◌then◌else◌,
}
use cheaproute.Prelude.Int.{ℤ}
use cheaproute.JsonReader.Text.{keyword_loop}
use cheaproute.JsonReader.State.{string_token, integer, boolean, null}
use cheaproute.JsonReader.{new_reader, read_value, read_keyword, keyword_answer}
use cheaproute.JsonWriter.Text.{quoted, signed_decimal}
use cheaproute.JsonWriter.{
  JsonWriter, JsonWriterMode, document_start, start_object, begin_value, then_emit, write_string,
  write_integer, write_boolean, write_null,
}
use cheaproute.JsonWriter.Values.{Value, top, named, first, later, lead}
use cheaproute.JsonRoundTrip.Escapes.{IsChar}
use cheaproute.JsonRoundTrip.Integers.{IsInt64, read_number-signed_decimal}
use cheaproute.JsonRoundTrip.Values.{next-value, next-quoted}
use cheaproute.JsonRoundTrip.Numerals.{next-signed_decimal}
use cheaproute.JsonRoundTrip.Calls.{
  Call, opens_array, opens_object, text, number, truth, nothing, closes_array, closes_object, name,
  perform, IsReadable,
}
use cheaproute.JsonRoundTrip.Written.{ready, IsResumed, IsInside, Step, value-Step}
use cheaproute.JsonRoundTrip.Places.{Value-Reading, value_call}

-- A call that writes a value other than a container.
abbrev pub IsScalar : Call → Type 0
IsScalar (text str) = Unit
IsScalar (number i) = Unit
IsScalar (truth b) = Unit
IsScalar nothing = Unit
IsScalar _ = ⊥

length-signed_decimal : (i : ℤ) → IsInt64 i → 0 < length (signed_decimal i)
length-signed_decimal i h =
    let (ch, rest, e, k) = read_number-signed_decimal (λ _. false) i [] (new_reader []) h tt in
    subst (λ t. 0 < length t) (sym e) (omega arith)

Value-IsInside : {m n : JsonWriterMode} → Value m n → m ≢ document_start → IsInside n
Value-IsInside top h = absurd (h refl)
Value-IsInside named h = tt
Value-IsInside first h = tt
Value-IsInside later h = tt

module _ (strtod_overflows : List ℕ → Bool) where
  text-Step :
      {n : JsonWriterMode} (str : List ℕ) (w : JsonWriter) (v : Value w.mode n)
      → All IsResumed w.mode_stack
      → All IsChar str
      → Step strtod_overflows
          (text str)
          w
          (record w { out = (w.out ++ lead v w) ++ quoted str; mode = n })
  unfolding quoted
  text-Step {n} str w v s h =
      value-Step strtod_overflows v (text str) w
        (record w { out = (w.out ++ lead v w) ++ quoted str; mode = n }) (quoted str) refl
        (omega arith) s tt
        (λ r t before rest b _.
          Value-Reading v (text str) w.mode_stack r (record r { str_value = str }) string_token rest
            _ (next-quoted strtod_overflows str rest (ready r w.mode w.mode_stack t []) b h) refl
            (refl, refl, refl) refl)

  number-Step :
      {n : JsonWriterMode} (i : ℤ) (w : JsonWriter) (v : Value w.mode n)
      → All IsResumed w.mode_stack
      → w.mode ≢ document_start
      → IsInt64 i
      → Step strtod_overflows
          (number i)
          w
          (record w { out = (w.out ++ lead v w) ++ signed_decimal i; mode = n })
  number-Step {n} i w v s d h =
      value-Step strtod_overflows v (number i) w
        (record w { out = (w.out ++ lead v w) ++ signed_decimal i; mode = n }) (signed_decimal i)
        refl (length-signed_decimal i h) s (Value-IsInside v d)
        (λ r t before rest b e.
          Value-Reading v (number i) w.mode_stack r
            (record r { str_value = signed_decimal i; int_value = i }) integer rest _
            (next-signed_decimal strtod_overflows i rest (ready r w.mode w.mode_stack t []) b h e)
            refl (refl, refl, refl) refl)

  nothing-Step :
      {n : JsonWriterMode} (w : JsonWriter) (v : Value w.mode n)
      → All IsResumed w.mode_stack
      → Step strtod_overflows nothing w
          (record w { out = (w.out ++ lead v w) ++ ascii "null"; mode = n })
  unfolding read_value read_keyword keyword_loop keyword_answer
  nothing-Step {n} w v s =
      value-Step strtod_overflows v nothing w
        (record w { out = (w.out ++ lead v w) ++ ascii "null"; mode = n }) (ascii "null") refl
        (omega arith) s tt
        (λ r t before rest b _.
          Value-Reading v nothing w.mode_stack r r null rest _
            (next-value strtod_overflows b'n' (ascii "ull" ++ rest)
              (ready r w.mode w.mode_stack t []) b refl refl)
            refl (refl, refl, refl) refl)

  truth-Step :
      {n : JsonWriterMode} (b : Bool) (w : JsonWriter) (v : Value w.mode n)
      → All IsResumed w.mode_stack
      → Step strtod_overflows (truth b) w (record w {
        out = (w.out ++ lead v w) ++ (if b then ascii "true" else ascii "false");
        mode = n;
      })
  unfolding read_value read_keyword keyword_loop keyword_answer
  truth-Step {n} true w v s =
      value-Step strtod_overflows v (truth true) w
        (record w { out = (w.out ++ lead v w) ++ ascii "true"; mode = n }) (ascii "true") refl
        (omega arith) s tt
        (λ r t before rest b _.
          Value-Reading v (truth true) w.mode_stack r (record r { bool_value = true }) boolean rest
            _
            (next-value strtod_overflows b't' (ascii "rue" ++ rest)
              (ready r w.mode w.mode_stack t []) b refl refl)
            refl (refl, refl, refl) refl)
  truth-Step {n} false w v s =
      value-Step strtod_overflows v (truth false) w
        (record w { out = (w.out ++ lead v w) ++ ascii "false"; mode = n }) (ascii "false") refl
        (omega arith) s tt
        (λ r t before rest b _.
          Value-Reading v (truth false) w.mode_stack r (record r { bool_value = false }) boolean
            rest _
            (next-value strtod_overflows b'f' (ascii "alse" ++ rest)
              (ready r w.mode w.mode_stack t []) b refl refl)
            refl (refl, refl, refl) refl)

  emit_call :
      (c : Call) (w w' : JsonWriter) (bytes : List ℕ)
      → w.mode ≢ start_object
      → then_emit (begin_value w) bytes ≡ some w'
      → ((n : JsonWriterMode) (v : Value w.mode n)
          → Step strtod_overflows c w (record w { out = (w.out ++ lead v w) ++ bytes; mode = n }))
      → Step strtod_overflows c w w'
  emit_call c w w' bytes h e k =
      value_call strtod_overflows c w w' (λ o. then_emit o bytes)
        (λ u. record u { out = u.out ++ bytes }) refl (λ u. refl) h e k

  pub written-Step :
      (c : Call) (w w' : JsonWriter)
      → All IsResumed w.mode_stack
      → IsReadable w c
      → perform c w ≡ some w'
      → IsScalar c
      → Step strtod_overflows c w w'
  unfolding perform write_string write_integer write_boolean write_null
  written-Step (text str) w w' s (h, k) e i =
      emit_call (text str) w w' _ h e (λ n v. text-Step str w v s k)
  written-Step (number i) w w' s (h, d, k) e _ =
      emit_call (number i) w w' _ h e (λ n v. number-Step i w v s d k)
  written-Step (truth b) w w' s h e i = emit_call (truth b) w w' _ h e (λ n v. truth-Step b w v s)
  written-Step nothing w w' s h e i = emit_call nothing w w' _ h e (λ n v. nothing-Step w v s)
  written-Step opens_array w w' s h e i = absurd i
  written-Step opens_object w w' s h e i = absurd i
  written-Step closes_array w w' s h e i = absurd i
  written-Step closes_object w w' s h e i = absurd i
  written-Step (name str) w w' s h e i = absurd i
