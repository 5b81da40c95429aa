-- ===== src/JsonRoundTrip/Places.antt =====
-- The calls of the printer that write a value: what they have in common.
use cheaproute.Prelude.{
  subst, ℕ, ◌≡◌, ◌≢◌, sym, ◌∙◌, ap, Bool, true, Option, none, some, List, [], ◌++◌, map, inl, inr,
}
use cheaproute.JsonReader.State.{JsonReader, JsonToken}
use cheaproute.JsonWriter.{JsonWriter, JsonWriterMode, start_object, begin_value}
use cheaproute.JsonWriter.Values.{Value, lead, begins-lead, begins-Value}
use cheaproute.JsonRoundTrip.Calls.{Call, seen_as}
use cheaproute.JsonRoundTrip.Written.{
  reads_in, ready, IsLast, IsResumed-Awaits, Reading, Step, Value-reads_in, Value-IsResumed,
}

-- The state behind `BeginValue`.
abbrev pub begun : {m n : JsonWriterMode} → Value m n → JsonWriter → JsonWriter
begun {n = n} v w = record w { out = w.out ++ lead v w; mode = n }

-- The reader behind the text of a value.
pub Value-Reading :
    {m n : JsonWriterMode} (v : Value m n) (c : Call) (modes : List JsonWriterMode)
    (r reader : JsonReader) (token : JsonToken) (rest : List ℕ) (a : Bool × JsonReader)
    → a ≡ (true, ready reader m modes token rest)
    → seen_as token reader ≡ some c
    → IsLast token
    → reader.error_code ≡ r.error_code
    → Reading c n modes r rest a
Value-Reading {n = n} v c modes r reader token rest a e s l k = record {
  reader = reader;
  token = token;
  pad = [];
  returns =
      e
      ∙ ap
          (λ k. (
            true,
            record reader {
              stream = rest;
              mode = k;
              token_type = token;
              mode_stack = map reads_in modes;
            },
          ))
          (Value-reads_in v);
  shows = s;
  awaits = IsResumed-Awaits n token (Value-IsResumed v) l;
  pad-IsSpace = tt;
  no_error = k;
}

module _ (strtod_overflows : List ℕ → Bool) where
  -- A call that goes on behind `BeginValue`.
  pub value_call :
      (c : Call) (w w' : JsonWriter) (f : Option JsonWriter → Option JsonWriter)
      (g : JsonWriter → JsonWriter)
      → f none ≡ none
      → ((u : JsonWriter) → f (some u) ≡ some (g u))
      → w.mode ≢ start_object
      → f (begin_value w) ≡ some w'
      → ((n : JsonWriterMode) (v : Value w.mode n) → Step strtod_overflows c w (g (begun v w)))
      → Step strtod_overflows c w w'
  unfolding begin_value
  value_call c w w' f g d s h e k = elim (begins-Value w.mode w h) [
    | inl refused ↦ absurd (no_call (sym (ap f refused ∙ d) ∙ e))
    | inr (n, v) ↦
        subst (Step strtod_overflows c w) (same (sym (ap f (begins-lead v w) ∙ s (begun v w)) ∙ e))
          (k n v)
  ]
    where
      no_call : none ≡ some w' → ⊥
      no_call e = cc

      same : {u : JsonWriter} → some u ≡ some w' → u ≡ w'
      same e = cc
