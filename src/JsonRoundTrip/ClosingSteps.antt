-- ===== src/JsonRoundTrip/ClosingSteps.antt =====
-- The calls of the printer that close a container, each read by one `Next`.
use cheaproute.Prelude.{
  some, subst, ℕ, arith, length-append, ◌≡◌, refl, sym, ◌∙◌, ap, Bool, true, false, List, [], ◌∷◌,
  ◌++◌, append_assoc, All, All-append,
}
use cheaproute.Prelude.{some-injective}
use cheaproute.JsonReader.State.{
  JsonReader, JsonToken, property_name, end_array as end_array_token,
  end_object as end_object_token, token_eq,
}
use cheaproute.JsonReader.{next, next_in, next_in_array, next_in_object, pop_mode, is_space}
use cheaproute.JsonReader.Number.{ends_number}
use cheaproute.JsonWriter.{
  JsonWriter, JsonWriterMode, document_start, start_object, object_property_name,
  object_property_value, start_array, middle_array, new_line, shallower, end_array, end_array_in,
  end_object, end_object_in, end_container,
}
use cheaproute.JsonRoundTrip.Scans.{EndsNumber}
use cheaproute.JsonRoundTrip.Values.{IsSpace, skipping-space}
use cheaproute.JsonRoundTrip.Calls.{Call, closes_array, closes_object, perform, seen_as}
use cheaproute.JsonRoundTrip.Written.{
  reads_in, ready, IsResumed, IsLast, IsResumed-Awaits, Awaits, StaysInside, Step, All-new_line,
}

space_ends : (ch : ℕ) → IsSpace ch → ends_number ch ≡ true
space_ends ch h = ground arith

space_or_bracket :
    (space : List ℕ) (bracket : ℕ)
    → All IsSpace space
    → ends_number bracket ≡ true
    → EndsNumber (space ++ bracket ∷ [])
space_or_bracket [] bracket h e = e
space_or_bracket (ch ∷ space) bracket h e = space_ends ch h.0

-- The printer in a container, at the end of it, and behind it.
abbrev open_at : JsonWriterMode → JsonWriterMode → List JsonWriterMode → JsonWriter → JsonWriter
open_at m k modes w = record w { mode = m; mode_stack = k ∷ modes }

abbrev at_end : JsonWriterMode → JsonWriterMode → List JsonWriterMode → JsonWriter → JsonWriter
at_end m k modes w = record (open_at m k modes w) { indent = shallower w.indent }

abbrev closed : JsonWriterMode → JsonWriterMode → List JsonWriterMode → ℕ → JsonWriter → JsonWriter
closed m k modes bracket w = record w {
  out = w.out ++ (new_line (at_end m k modes w) ++ bracket ∷ []);
  mode = k;
  mode_stack = modes;
  indent = shallower w.indent;
}

module _ (strtod_overflows : List ℕ → Bool) where
  -- The reader pops the mode that the printer pops.
  close_Step :
      (c : Call) (bracket : ℕ) (token : JsonToken) (m k : JsonWriterMode)
      (modes : List JsonWriterMode) (w : JsonWriter)
      → IsResumed k
      → All IsResumed modes
      → StaysInside c k
      → IsLast token
      → is_space bracket ≡ false
      → ends_number bracket ≡ true
      → ((r : JsonReader) → seen_as token r ≡ some c)
      → ((r : JsonReader) (t : JsonToken) (rest : List ℕ)
          → Awaits m t
          → next_in strtod_overflows (reads_in m) bracket (ready r m (k ∷ modes) t rest)
            ≡ (true, ready r k modes token rest))
      → Step strtod_overflows c (open_at m k modes w) (closed m k modes bracket w)
  unfolding next
  close_Step c bracket token m k modes w i s d l p q z f =
      let line = new_line (at_end m k modes w) in
      let white = All-new_line (at_end m k modes w) in
      record {
        bytes = line ++ bracket ∷ [];
        prints = refl;
        some_bytes = omega (arith, length-append line (bracket ∷ []));
        ends_number = λ _. space_or_bracket line bracket white q;
        resumes = s;
        stays = d;
        reads = λ r t pad rest a h _. record {
          reader = r;
          token = token;
          pad = [];
          returns =
              ap (λ u. next strtod_overflows (ready r m (k ∷ modes) t u))
                (ap (λ u. pad ++ u) (append_assoc line (bracket ∷ []) rest)
                  ∙ sym (append_assoc pad line (bracket ∷ rest)))
              ∙ skipping-space (pad ++ line) bracket rest (ready r m (k ∷ modes) t [])
                  (next_in strtod_overflows (reads_in m)) (All-append IsSpace pad line h white) p
              ∙ f r t rest a;
          shows = z r;
          awaits = IsResumed-Awaits k token i l;
          pad-IsSpace = tt;
          no_error = refl;
        };
      }

  close_array :
      (m k : JsonWriterMode) (modes : List JsonWriterMode) (w : JsonWriter)
      → reads_in m ≡ reads_in start_array
      → IsResumed k
      → All IsResumed modes
      → Step strtod_overflows closes_array (open_at m k modes w) (closed m k modes b']' w)
  close_array m k modes w e i s =
      close_Step closes_array b']' end_array_token m k modes w i s tt (refl, refl, refl) refl refl
        (λ r. refl) (λ r t rest a. rw e (unfold next_in next_in_array pop_mode in refl))

  close_object :
      (m k : JsonWriterMode) (modes : List JsonWriterMode) (w : JsonWriter)
      → reads_in m ≡ reads_in start_object
      → ((t : JsonToken) → Awaits m t → token_eq t property_name ≡ false)
      → IsResumed k
      → All IsResumed modes
      → Step strtod_overflows closes_object (open_at m k modes w) (closed m k modes b'}' w)
  close_object m k modes w e n i s =
      close_Step closes_object b'}' end_object_token m k modes w i s tt (refl, refl, refl) refl refl
        (λ r. refl)
        (λ r t rest a. rw e (unfold next_in next_in_object in rw (n t a) (unfold pop_mode in refl)))

  close_array_in :
      (m : JsonWriterMode) (st : List JsonWriterMode) (w w' : JsonWriter)
      → All IsResumed st
      → end_array_in m (record w { mode = m; mode_stack = st }) ≡ some w'
      → Step strtod_overflows closes_array (record w { mode = m; mode_stack = st }) w'
  unfolding end_array_in end_container
  close_array_in start_array [] w w' s e = cc
  close_array_in start_array (k ∷ modes) w w' (i, s) e =
      subst (Step strtod_overflows closes_array (open_at start_array k modes w))
        (some-injective _ _ e) (close_array start_array k modes w refl i s)
  close_array_in middle_array [] w w' s e = cc
  close_array_in middle_array (k ∷ modes) w w' (i, s) e =
      subst (Step strtod_overflows closes_array (open_at middle_array k modes w))
        (some-injective _ _ e) (close_array middle_array k modes w refl i s)
  close_array_in document_start st w w' s e = cc
  close_array_in start_object st w w' s e = cc
  close_array_in object_property_name st w w' s e = cc
  close_array_in object_property_value st w w' s e = cc

  close_object_in :
      (m : JsonWriterMode) (st : List JsonWriterMode) (w w' : JsonWriter)
      → All IsResumed st
      → end_object_in m (record w { mode = m; mode_stack = st }) ≡ some w'
      → Step strtod_overflows closes_object (record w { mode = m; mode_stack = st }) w'
  unfolding end_object_in end_container
  close_object_in start_object [] w w' s e = cc
  close_object_in start_object (k ∷ modes) w w' (i, s) e =
      subst (Step strtod_overflows closes_object (open_at start_object k modes w))
        (some-injective _ _ e) (close_object start_object k modes w refl (λ t a. rw a) i s)
  close_object_in object_property_name [] w w' s e = cc
  close_object_in object_property_name (k ∷ modes) w w' (i, s) e =
      subst (Step strtod_overflows closes_object (open_at object_property_name k modes w))
        (some-injective _ _ e) (close_object object_property_name k modes w refl (λ t a. a.0) i s)
  close_object_in document_start st w w' s e = cc
  close_object_in start_array st w w' s e = cc
  close_object_in middle_array st w w' s e = cc
  close_object_in object_property_value st w w' s e = cc

  -- What `EndArray` and `EndObject` print is read as the end of the container.
  pub closes_array-Step :
      (w w' : JsonWriter)
      → All IsResumed w.mode_stack
      → perform closes_array w ≡ some w'
      → Step strtod_overflows closes_array w w'
  unfolding perform end_array
  closes_array-Step w w' s e = close_array_in w.mode w.mode_stack w w' s e

  pub closes_object-Step :
      (w w' : JsonWriter)
      → All IsResumed w.mode_stack
      → perform closes_object w ≡ some w'
      → Step strtod_overflows closes_object w w'
  unfolding perform end_object
  closes_object-Step w w' s e = close_object_in w.mode w.mode_stack w w' s e
