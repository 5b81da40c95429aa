-- ===== src/JsonRoundTrip/ContainerSteps.antt =====
-- The calls of the printer that open a container, each read by one `Next`.
use cheaproute.Prelude.{
  ℕ, ◌≡◌, refl, ◌∙◌, ap, Bool, true, false, ◌==◌, some, List, [], ◌∷◌, ◌++◌, map, All, arith,
}
use cheaproute.JsonReader.State.{
  JsonReader, JsonToken, start_array as array_token, start_object as object_token,
}
use cheaproute.JsonReader.{is_space, read_value, open_container}
use cheaproute.JsonWriter.{
  JsonWriter, JsonWriterMode, start_object, start_array, begin_container, deeper, begin_array,
  begin_object,
}
use cheaproute.JsonWriter.Values.{Value, lead}
use cheaproute.JsonRoundTrip.Values.{next-value}
use cheaproute.JsonRoundTrip.Calls.{Call, opens_array, opens_object, perform, IsReadable, seen_as}
use cheaproute.JsonRoundTrip.Written.{
  StaysInside, Awaits, reads_in, ready, IsResumed, Step, Value-reads_in, Value-IsResumed,
  value-Step,
}
use cheaproute.JsonRoundTrip.Places.{value_call}

module _ (strtod_overflows : List ℕ → Bool) where
  -- A bracket that opens a container, for the printer's mode and the reader's token in it.
  container-Step :
      {n : JsonWriterMode} (c : Call) (bracket : ℕ) (k : JsonWriterMode) (token : JsonToken)
      (w : JsonWriter) (v : Value w.mode n)
      → All IsResumed w.mode_stack
      → StaysInside c k
      → is_space bracket ≡ false
      → (bracket == b']') ≡ false
      → Awaits k token
      → ((r : JsonReader) → seen_as token r ≡ some c)
      → ((r : JsonReader)
          → read_value strtod_overflows bracket r ≡ (
            true,
            record r { token_type = token; mode = reads_in k; mode_stack = r.mode ∷ r.mode_stack },
          ))
      → Step strtod_overflows c w (record w {
        out = (w.out ++ lead v w) ++ bracket ∷ [];
        mode_stack = n ∷ w.mode_stack;
        mode = k;
        indent = deeper w.indent;
      })
  container-Step {n} c bracket k token w v s i p q a z f =
      value-Step strtod_overflows v c w
        (record w {
          out = (w.out ++ lead v w) ++ bracket ∷ [];
          mode_stack = n ∷ w.mode_stack;
          mode = k;
          indent = deeper w.indent;
        })
        (bracket ∷ []) refl (omega arith) (Value-IsResumed v, s) i
        (λ r t before rest b _. record {
          reader = r;
          token = token;
          pad = [];
          returns =
              next-value strtod_overflows bracket rest (ready r w.mode w.mode_stack t []) b p q
              ∙ f (ready r w.mode w.mode_stack t rest)
              ∙ ap
                  (λ m. (
                    true,
                    record r {
                      stream = rest;
                      token_type = token;
                      mode = reads_in k;
                      mode_stack = m ∷ map reads_in w.mode_stack;
                    },
                  ))
                  (Value-reads_in v);
          shows = z r;
          awaits = a;
          pad-IsSpace = tt;
          no_error = refl;
        })

  -- Each call that writes a value prints what `Next` reads as it.
  pub opens_array-Step :
      (w w' : JsonWriter)
      → All IsResumed w.mode_stack
      → IsReadable w opens_array
      → perform opens_array w ≡ some w'
      → Step strtod_overflows opens_array w w'
  unfolding perform begin_array read_value open_container
  opens_array-Step w w' s h e =
      value_call strtod_overflows opens_array w w' (begin_container b'[' start_array) _ refl
        (λ u. refl) h e
        (λ n v.
          container-Step opens_array b'[' start_array array_token w v s tt refl refl refl
            (λ r. refl) (λ r. refl))

  pub opens_object-Step :
      (w w' : JsonWriter)
      → All IsResumed w.mode_stack
      → IsReadable w opens_object
      → perform opens_object w ≡ some w'
      → Step strtod_overflows opens_object w w'
  unfolding perform begin_object read_value open_container
  opens_object-Step w w' s h e =
      value_call strtod_overflows opens_object w w' (begin_container b'{' start_object) _ refl
        (λ u. refl) h e
        (λ n v.
          container-Step opens_object b'{' start_object object_token w v s tt refl refl refl
            (λ r. refl) (λ r. refl))
