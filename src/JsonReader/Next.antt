-- ===== src/JsonReader/Next.antt =====
-- `Next` takes a byte at least, and keeps the modes nested: below the containers that are open
-- stands the document, so that `PopMode` always finds a mode.
use cheaproute.Prelude.{
  if◌then◌else◌, ℕ, suc, ◌≤◌, ◌≡◌, refl, Bool, true, false, Option, none, some, List, [], ◌∷◌,
  arith, ◌==◌, if_rule, length, inl, inr, ◌⊎◌, ◌-◌, ◌≢◌,
}
use cheaproute.JsonReader.Text.{unexpected_character}
use cheaproute.JsonReader.State.{
  JsonMode, document_start, array_mode, object_mode, JsonReader, token_eq, start_array, end_array,
  start_object, end_object, property_name,
}
use cheaproute.JsonReader.{
  read_value, skip_whitespace, skipping, pop_mode, next_in_array, expect_colon, read_property_name,
  next_in_object, next_in, next,
}
use cheaproute.JsonReader.Values.{
  Nested, IsNested, Goes, Goes-mono, read_string-Goes, skip_whitespace_shorter, read_value-Goes,
}

module _ (strtod_overflows : List ℕ → Bool) where
  skip_branch :
      (n : ℕ) (r : JsonReader) (o : Option (ℕ × List ℕ)) (k : ℕ → JsonReader → Bool × JsonReader)
      → IsNested r
      → (o ≡ none) ⊎ ((p : ℕ × List ℕ) × (o ≡ some p) × (suc (length p.1) ≤ n))
      → ((ch : ℕ) (input : List ℕ) → Goes (length input) (k ch (record r { stream = input })))
      → Goes (n - 1) (elim o [
        | none ↦ (false, record r { stream = [] })
        | some (ch, input) ↦ k ch (record r { stream = input })
      ])
  skip_branch n r o k v (inl e) f = rw e (omega arith, v)
  skip_branch n r o k v (inr ((ch, input), e, h)) f =
      let r' : JsonReader = record r { stream = input } in
      rw e (Goes-mono (length input) (n - 1) (k ch r') (omega arith) (f ch input))

  skipping-Goes :
      (r : JsonReader) (k : ℕ → JsonReader → Bool × JsonReader)
      → IsNested r
      → ((ch : ℕ) (input : List ℕ) → Goes (length input) (k ch (record r { stream = input })))
      → Goes (length r.stream - 1) (skipping r k)
  unfolding skipping
  skipping-Goes r k v f =
      skip_branch (length r.stream) r (skip_whitespace r.stream) k v
        (skip_whitespace_shorter r.stream) f

  pop_mode-Goes :
      (n : ℕ) (m : JsonMode) (modes : List JsonMode) (r : JsonReader)
      → m ≢ document_start
      → Nested m modes
      → length r.stream ≤ n
      → Goes n (pop_mode modes r)
  unfolding pop_mode
  pop_mode-Goes n document_start modes r ne v h = absurd (ne refl)
  pop_mode-Goes n array_mode [] r ne v h = absurd v
  pop_mode-Goes n array_mode (m ∷ modes) r ne v h = (h, v)
  pop_mode-Goes n object_mode [] r ne v h = absurd v
  pop_mode-Goes n object_mode (m ∷ modes) r ne v h = (h, v)

  -- `skipping` where what follows goes within the stream.
  skipping-Within :
      (r : JsonReader) (k : ℕ → JsonReader → Bool × JsonReader)
      → IsNested r
      → ((ch : ℕ) (input : List ℕ) → Goes (length input) (k ch (record r { stream = input })))
      → Goes (length r.stream) (skipping r k)
  skipping-Within r k v f =
      Goes-mono (length r.stream - 1) (length r.stream) (skipping r k) (omega arith)
        (skipping-Goes r k v f)

  next_in_array-Goes :
      (ch : ℕ) (r : JsonReader)
      → r.mode ≢ document_start
      → IsNested r
      → Goes (length r.stream) (next_in_array strtod_overflows ch r)
  unfolding next_in_array
  next_in_array-Goes ch r ne v =
      if_rule (Goes (length r.stream)) (ch == b']')
        (λ _.
          pop_mode-Goes (length r.stream) r.mode r.mode_stack (record r { token_type = end_array })
            ne v (omega arith))
        λ _.
          if_rule (Goes (length r.stream)) (token_eq r.token_type start_array)
            (λ _. read_value-Goes strtod_overflows ch r v)
            λ _.
              if_rule (Goes (length r.stream)) (ch == b',')
                (λ _.
                  skipping-Within r (read_value strtod_overflows) v
                    (λ c input. read_value-Goes strtod_overflows c (record r { stream = input }) v))
                λ _. (omega arith, v)

  expect_colon-Goes : (n : ℕ) (a : Bool × JsonReader) → Goes n a → Goes n (expect_colon a)
  unfolding expect_colon
  expect_colon-Goes n (false, r) h = h
  expect_colon-Goes n (true, r) (h, v) =
      let k = λ (ch : ℕ) (r' : JsonReader).
        (if ch == b':'
          then (true, r')
          else (false, record r' { error_code = unexpected_character })) in
      Goes-mono (length r.stream) n (skipping r k) h (
        skipping-Within r k v (λ ch input.
          if_rule (Goes (length input)) (ch == b':') (λ _. (omega arith, v)) λ _. (omega arith, v)))

  read_property_name-Goes :
      (ch : ℕ) (r : JsonReader) → IsNested r → Goes (length r.stream) (read_property_name ch r)
  unfolding read_property_name
  read_property_name-Goes ch r v =
      expect_colon-Goes (length r.stream) _
        (read_string-Goes ch (record r { token_type = property_name }) v)

  next_in_object-Goes :
      (ch : ℕ) (r : JsonReader)
      → r.mode ≢ document_start
      → IsNested r
      → Goes (length r.stream) (next_in_object strtod_overflows ch r)
  unfolding next_in_object
  next_in_object-Goes ch r ne v =
      if_rule (Goes (length r.stream)) (token_eq r.token_type property_name)
        (λ _. read_value-Goes strtod_overflows ch r v)
        λ _.
          if_rule (Goes (length r.stream)) (ch == b'}')
            (λ _.
              pop_mode-Goes (length r.stream) r.mode r.mode_stack
                (record r { token_type = end_object }) ne v (omega arith))
            λ _.
              if_rule (Goes (length r.stream)) (token_eq r.token_type start_object)
                (λ _. read_property_name-Goes ch r v)
                λ _.
                  if_rule (Goes (length r.stream)) (ch == b',')
                    (λ _.
                      skipping-Within r read_property_name v
                        (λ c input. read_property_name-Goes c (record r { stream = input }) v))
                    λ _. (omega arith, v)

  next_in-Goes :
      (m : JsonMode) (ch : ℕ) (r : JsonReader)
      → r.mode ≡ m
      → IsNested r
      → Goes (length r.stream) (next_in strtod_overflows m ch r)
  unfolding next_in
  next_in-Goes document_start ch r e v = read_value-Goes strtod_overflows ch r v
  next_in-Goes array_mode ch r e v = next_in_array-Goes ch r (λ d. cc) v
  next_in-Goes object_mode ch r e v = next_in_object-Goes ch r (λ d. cc) v

  -- `Next`, whether it succeeds or fails, leaves fewer bytes than there were, if there were any,
  -- and keeps the modes nested: so a reader that calls it again and again reaches the end of the
  -- stream, and `PopMode` never finds an empty stack.
  pub next-Goes :
      (r : JsonReader) → IsNested r → Goes (length r.stream - 1) (next strtod_overflows r)
  unfolding next
  next-Goes r v =
      skipping-Goes r (λ ch r'. next_in strtod_overflows r.mode ch r') v
        (λ ch input. next_in-Goes r.mode ch (record r { stream = input }) refl v)
