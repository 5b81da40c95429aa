-- ===== src/JsonRoundTrip/Values.antt =====
-- What base/json_writer.cc prints for a string or an integer, read by `JsonReader::Next`.
use cheaproute.Prelude.{
  ℕ, ◌≡◌, refl, ◌∙◌, ap, Bool, true, false, some, List, [], ◌∷◌, ◌++◌, append_assoc, ◌==◌, All,
}
use cheaproute.JsonReader.State.{
  JsonMode, document_start, array_mode, object_mode, JsonToken, start_array, property_name,
  string_token, token_eq, JsonReader,
}
use cheaproute.JsonReader.{
  string_answer, read_string, read_value, is_space, skip_whitespace, skipping, next_in_array,
  next_in_object, next_in, next,
}
use cheaproute.JsonWriter.Text.{escaped_text, quoted}
use cheaproute.JsonRoundTrip.Escapes.{IsChar}
use cheaproute.JsonRoundTrip.Strings.{read_quoted-text}

abbrev pub IsSpace : ℕ → Type 0
IsSpace ch = is_space ch ≡ true

-- What may stand before a value, by the mode and the last token: white space, with a comma in an
-- array that has an item.
pub data Before : JsonMode → JsonToken → List ℕ → Type 0 where
  at_start :
      (token : JsonToken) (space : List ℕ) → All IsSpace space → Before document_start token space
  first_item : (space : List ℕ) → All IsSpace space → Before array_mode start_array space
  after_name : (space : List ℕ) → All IsSpace space → Before object_mode property_name space
  after_item :
      (token : JsonToken) (space more : List ℕ)
      → token_eq token start_array ≡ false
      → All IsSpace space
      → All IsSpace more
      → Before array_mode token (space ++ b',' ∷ more)

skip_whitespace-append :
    (space : List ℕ) (ch : ℕ) (rest : List ℕ)
    → All IsSpace space
    → is_space ch ≡ false
    → skip_whitespace (space ++ ch ∷ rest) ≡ some (ch, rest)
unfolding skip_whitespace
skip_whitespace-append [] ch rest h e = rw e refl
skip_whitespace-append (x ∷ space) ch rest h e =
    rw (h.0) (skip_whitespace-append space ch rest h.1 e)

pub skipping-space :
    (space : List ℕ) (ch : ℕ) (rest : List ℕ) (r : JsonReader)
    (k : ℕ → JsonReader → Bool × JsonReader)
    → All IsSpace space
    → is_space ch ≡ false
    → skipping (record r { stream = space ++ ch ∷ rest }) k ≡ k ch (record r { stream = rest })
unfolding skipping
skipping-space space ch rest r k h e = rw (skip_whitespace-append space ch rest h e, skipping) refl

module _ (strtod_overflows : List ℕ → Bool) where
  pub next-value :
      {mode : JsonMode} {token : JsonToken} {before : List ℕ} (ch : ℕ) (rest : List ℕ)
      (r : JsonReader)
      → Before mode token before
      → is_space ch ≡ false
      → (ch == b']') ≡ false
      → next strtod_overflows
          (record r { stream = before ++ ch ∷ rest; mode = mode; token_type = token })
        ≡ read_value strtod_overflows ch
            (record r { stream = rest; mode = mode; token_type = token })
  unfolding next next_in
  next-value ch rest r (at_start token space h) e n =
      skipping-space space ch rest (record r { mode = document_start; token_type = token })
        (next_in strtod_overflows document_start) h e
  next-value ch rest r (first_item space h) e n =
      skipping-space space ch rest (record r { mode = array_mode; token_type = start_array })
        (next_in strtod_overflows array_mode) h e
      ∙ unfold next_in_array in rw (n, next_in_array) refl
  next-value ch rest r (after_name space h) e n =
      skipping-space space ch rest (record r { mode = object_mode; token_type = property_name })
        (next_in strtod_overflows object_mode) h e
      ∙ unfold next_in_object in refl
  next-value ch rest r (after_item token space more d h k) e n =
      ap
        (λ t.
          next strtod_overflows (record r { stream = t; mode = array_mode; token_type = token }))
        (append_assoc space (b',' ∷ more) (ch ∷ rest))
      ∙ (skipping-space space b',' (more ++ ch ∷ rest)
            (record r { mode = array_mode; token_type = token })
            (next_in strtod_overflows array_mode) h refl
          ∙ unfold next_in_array in
            rw (d, next_in_array)
              (skipping-space more ch rest (record r { mode = array_mode; token_type = token })
                (read_value strtod_overflows) k e))

  -- Wherever a value may stand, behind any white space and the comma that an array wants, `Next`
  -- reads back exactly the string that `WriteRawString` printed, for every string of bytes without a
  -- zero, and stops behind the closing quote.
  pub next-quoted :
      {mode : JsonMode} {token : JsonToken} {before : List ℕ} (text rest : List ℕ) (r : JsonReader)
      → Before mode token before
      → All IsChar text
      → next strtod_overflows
          (record r { stream = before ++ (quoted text ++ rest); mode = mode; token_type = token })
        ≡ (
          true,
          record r { stream = rest; mode = mode; token_type = string_token; str_value = text },
        )
  unfolding quoted
  next-quoted {mode} {token} {before} text rest r b h =
      ap
        (λ t.
          next strtod_overflows
            (record r { stream = before ++ (b'"' ∷ t); mode = mode; token_type = token }))
        (append_assoc (escaped_text text) (b'"' ∷ []) rest)
      ∙ (next-value b'"' (escaped_text text ++ b'"' ∷ rest) r b refl refl
          ∙ unfold read_value read_string string_answer in
            ap
              (string_answer (record r {
                stream = escaped_text text ++ b'"' ∷ rest;
                mode = mode;
                token_type = string_token;
              }))
              (read_quoted-text text rest h))
