-- ===== src/JsonRoundTrip/NameSteps.antt =====
-- The calls of the printer that write the name of a property or close a container, each read by one
-- `Next`.
use cheaproute.Prelude.{
  subst, ℕ, ◌<◌, some, arith, length, length-append, ◌≡◌, refl, sym, ◌∙◌, ap, Bool, true, false,
  List, [], ◌∷◌, ◌++◌, append_assoc, All, All-append, if◌then◌else◌,
}
use cheaproute.Prelude.{some-injective}
use cheaproute.JsonReader.State.{JsonReader, JsonToken, start_object as object_token, property_name}
use cheaproute.JsonReader.{
  next, next_in, next_in_object, read_property_name, read_string, string_answer, expect_colon,
  skipping, skip_whitespace,
}
use cheaproute.JsonWriter.Text.{quoted, escaped_text}
use cheaproute.JsonWriter.{
  JsonWriter, JsonWriterMode, document_start, start_array, middle_array, start_object,
  object_property_name, object_property_value, new_line, comma, name_text, write_property_name,
  write_property_name_in,
}
use cheaproute.JsonRoundTrip.Escapes.{IsChar}
use cheaproute.JsonRoundTrip.Strings.{read_quoted-text}
use cheaproute.JsonRoundTrip.Scans.{EndsNumber}
use cheaproute.JsonRoundTrip.Values.{IsSpace, skipping-space}
use cheaproute.JsonRoundTrip.Calls.{name, perform, IsReadable}
use cheaproute.JsonRoundTrip.Written.{
  reads_in, ready, Awaits, IsResumed, Step, All-new_line, comma_space, comma-IsSpace,
}

-- The reader behind the name of a property and the colon.
read_property_name-quoted :
    (str rest : List ℕ) (r : JsonReader)
    → All IsChar str
    → read_property_name b'"' (record r { stream = escaped_text str ++ b'"' ∷ b':' ∷ rest })
      ≡ (true, record r { stream = rest; token_type = property_name; str_value = str })
unfolding read_property_name read_string string_answer
read_property_name-quoted str rest r h =
    ap
      (λ o. expect_colon (
        string_answer
          (record r { stream = escaped_text str ++ b'"' ∷ b':' ∷ rest; token_type = property_name })
          o))
      (read_quoted-text str (b':' ∷ rest) h)
    ∙ unfold expect_colon skipping skip_whitespace in refl

-- A space behind the colon.
abbrev colon_space : JsonWriter → List ℕ
colon_space w = if w.should_indent then b' ' ∷ [] else []

colon-IsSpace : (w : JsonWriter) → All IsSpace (colon_space w)
colon-IsSpace w = choose w.should_indent
  where
    choose : (b : Bool) → All IsSpace (if b then b' ' ∷ [] else [])
    choose true = (refl, tt)
    choose false = tt

abbrev name_body : List ℕ → JsonWriter → List ℕ → List ℕ
name_body str w rest = escaped_text str ++ b'"' ∷ b':' ∷ (colon_space w ++ rest)

name_text-append :
    (str : List ℕ) (w : JsonWriter) (rest : List ℕ)
    → name_text str w ++ rest ≡ new_line w ++ (b'"' ∷ name_body str w rest)
unfolding name_text quoted
name_text-append str w rest = simp append_assoc

module _ (strtod_overflows : List ℕ → Bool) where
  first_name :
      (str : List ℕ) (w : JsonWriter) (pad rest : List ℕ) (r : JsonReader)
      → All IsSpace pad
      → All IsChar str
      → next strtod_overflows
          (ready r start_object w.mode_stack object_token (pad ++ (name_text str w ++ rest)))
        ≡ (
          true,
          ready
              (record r { str_value = str })
              object_property_value
              w.mode_stack
              property_name
              (colon_space w ++ rest),
        )
  unfolding next next_in
  first_name str w pad rest r p h =
      ap (λ t. next strtod_overflows (ready r start_object w.mode_stack object_token t))
        (ap (λ t. pad ++ t) (name_text-append str w rest)
          ∙ sym (append_assoc pad (new_line w) (b'"' ∷ name_body str w rest)))
      ∙ skipping-space (pad ++ new_line w) b'"' (name_body str w rest)
          (ready r start_object w.mode_stack object_token [])
          (next_in strtod_overflows (reads_in start_object))
          (All-append IsSpace pad (new_line w) p (All-new_line w)) refl
      ∙ unfold next_in_object in
        read_property_name-quoted str (colon_space w ++ rest)
          (ready r start_object w.mode_stack object_token []) h

  later_name :
      (str : List ℕ) (w : JsonWriter) (t : JsonToken) (pad rest : List ℕ) (r : JsonReader)
      → Awaits object_property_name t
      → All IsSpace pad
      → All IsChar str
      → next strtod_overflows (
          ready r object_property_name w.mode_stack t
            (pad ++ ((comma w ++ name_text str w) ++ rest)))
        ≡ (
          true,
          ready
              (record r { str_value = str })
              object_property_value
              w.mode_stack
              property_name
              (colon_space w ++ rest),
        )
  unfolding next next_in
  later_name str w t pad rest r (a, b) p h =
      ap (λ t'. next strtod_overflows (ready r object_property_name w.mode_stack t t'))
        (ap (λ u. pad ++ ((u ++ name_text str w) ++ rest)) (comma-IsSpace w).0
          ∙ ap (λ u. pad ++ b',' ∷ u)
              (append_assoc (comma_space w) (name_text str w) rest
                ∙ ap (λ u. comma_space w ++ u) (name_text-append str w rest)
                ∙ sym (append_assoc (comma_space w) (new_line w) (b'"' ∷ name_body str w rest))))
      ∙ skipping-space pad b',' ((comma_space w ++ new_line w) ++ b'"' ∷ name_body str w rest)
          (ready r object_property_name w.mode_stack t [])
          (next_in strtod_overflows (reads_in object_property_name)) p refl
      ∙ unfold next_in_object in
        rw (a, next_in_object)
          (rw (b, next_in_object)
            (skipping-space (comma_space w ++ new_line w) b'"' (name_body str w rest)
                (ready r object_property_name w.mode_stack t []) read_property_name
                (All-append IsSpace (comma_space w) (new_line w) (comma-IsSpace w).1
                  (All-new_line w))
                refl
              ∙ read_property_name-quoted str (colon_space w ++ rest)
                  (ready r object_property_name w.mode_stack t []) h))

  length-name_text : (str : List ℕ) (w : JsonWriter) → 0 < length (name_text str w)
  unfolding name_text quoted
  length-name_text str w = omega (
    arith,
    length-append (new_line w) ((b'"' ∷ (escaped_text str ++ b'"' ∷ [])) ++ b':' ∷ colon_space w),
  )

  first_name-Step :
      (str : List ℕ) (w : JsonWriter)
      → All IsResumed w.mode_stack
      → All IsChar str
      → Step strtod_overflows
          (name str)
          (record w { mode = start_object })
          (record w {
            out = w.out ++ name_text str (record w { mode = start_object });
            mode = object_property_value;
          })
  first_name-Step str w s h =
      let u : JsonWriter = record w { mode = start_object } in
      record {
        bytes = name_text str u;
        prints = refl;
        some_bytes = length-name_text str u;
        ends_number = λ b. absurd b;
        resumes = s;
        stays = tt;
        reads = λ r t pad rest a p _. record {
          reader = record r { str_value = str };
          token = property_name;
          pad = colon_space u;
          returns =
              subst
                (λ k.
                  next strtod_overflows
                    (ready r start_object u.mode_stack k (pad ++ (name_text str u ++ rest)))
                  ≡ (
                    true,
                    ready (record r { str_value = str }) object_property_value u.mode_stack
                        property_name (colon_space u ++ rest),
                  ))
                (sym a) (first_name str u pad rest r p h);
          shows = refl;
          awaits = refl;
          pad-IsSpace = colon-IsSpace u;
          no_error = refl;
        };
      }

  later_name-Step :
      (str : List ℕ) (w : JsonWriter)
      → All IsResumed w.mode_stack
      → All IsChar str
      → Step strtod_overflows
          (name str)
          (record w { mode = object_property_name })
          (record w {
            out =
                w.out
                ++ (comma (record w { mode = object_property_name })
                    ++ name_text str (record w { mode = object_property_name }));
            mode = object_property_value;
          })
  later_name-Step str w s h =
      let u : JsonWriter = record w { mode = object_property_name } in
      record {
        bytes = comma u ++ name_text str u;
        prints = refl;
        some_bytes =
            omega (arith, length-append (comma u) (name_text str u), length-name_text str u);
        ends_number =
            λ _. subst (λ k. EndsNumber (k ++ name_text str u)) (sym (comma-IsSpace u).0) refl;
        resumes = s;
        stays = tt;
        reads = λ r t pad rest a p _. record {
          reader = record r { str_value = str };
          token = property_name;
          pad = colon_space u;
          returns = later_name str u t pad rest r a p h;
          shows = refl;
          awaits = refl;
          pad-IsSpace = colon-IsSpace u;
          no_error = refl;
        };
      }

  name_in-Step :
      (m : JsonWriterMode) (str : List ℕ) (w w' : JsonWriter)
      → All IsResumed w.mode_stack
      → All IsChar str
      → write_property_name_in m str (record w { mode = m }) ≡ some w'
      → Step strtod_overflows (name str) (record w { mode = m }) w'
  unfolding write_property_name_in
  name_in-Step start_object str w w' s h e =
      subst (Step strtod_overflows (name str) (record w { mode = start_object }))
        (some-injective _ _ e) (first_name-Step str w s h)
  name_in-Step object_property_name str w w' s h e =
      subst (Step strtod_overflows (name str) (record w { mode = object_property_name }))
        (some-injective _ _ e) (later_name-Step str w s h)
  name_in-Step document_start str w w' s h e = cc
  name_in-Step object_property_value str w w' s h e = cc
  name_in-Step start_array str w w' s h e = cc
  name_in-Step middle_array str w w' s h e = cc

  -- What `WritePropertyName` prints is read as the name.
  pub name-Step :
      (str : List ℕ) (w w' : JsonWriter)
      → All IsResumed w.mode_stack
      → IsReadable w (name str)
      → perform (name str) w ≡ some w'
      → Step strtod_overflows (name str) w w'
  unfolding perform write_property_name
  name-Step str w w' s h e = name_in-Step w.mode str w w' s h e
