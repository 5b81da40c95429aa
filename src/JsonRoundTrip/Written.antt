-- ===== src/JsonRoundTrip/Written.antt =====
-- One call of the printer, and the reader's `Next` at the text of it: what the two states have to do
-- with each other before and after.
use cheaproute.Prelude.{
  subst, ℕ, zero, suc, ◌<◌, ◌≡◌, refl, sym, ◌∙◌, ap, Bool, true, false, some, List, [], ◌∷◌, ◌++◌,
  append_assoc, map, All, All-append, arith, length, length-append, replicate, if◌then◌else◌, not,
  ◌&&◌,
}
use cheaproute.Prelude.Int.{ℤ, pos, negsuc, is_zero}
use cheaproute.JsonReader.State.{
  JsonMode, array_mode, object_mode, document_start as at_document, JsonReader, JsonToken,
  start_array as array_token, start_object as object_token, property_name, token_eq,
}
use cheaproute.JsonReader.{next}
use cheaproute.JsonWriter.{
  JsonWriter, JsonWriterMode, document_start, start_object, object_property_name,
  object_property_value, start_array, middle_array, new_line, comma, spaces,
}
use cheaproute.JsonWriter.Values.{Value, top, named, first, later, lead}
use cheaproute.JsonRoundTrip.Scans.{EndsNumber}
use cheaproute.JsonRoundTrip.Values.{IsSpace, Before, at_start, first_item, after_name, after_item}
use cheaproute.JsonRoundTrip.Calls.{Call, number, seen_as}

-- The reader's mode for the printer's.
abbrev pub reads_in : JsonWriterMode → JsonMode
reads_in document_start = at_document
reads_in start_object = object_mode
reads_in object_property_name = object_mode
reads_in object_property_value = object_mode
reads_in start_array = array_mode
reads_in middle_array = array_mode

-- The reader before the call of `Next` that reads what the printer prints next.
abbrev pub ready :
    JsonReader → JsonWriterMode → List JsonWriterMode → JsonToken → List ℕ → JsonReader
ready r m modes t stream = record r {
  stream = stream;
  mode = reads_in m;
  token_type = t;
  mode_stack = map reads_in modes;
}

-- A mode behind a value.
abbrev pub IsResumed : JsonWriterMode → Type 0
IsResumed document_start = Unit
IsResumed start_object = ⊥
IsResumed object_property_name = Unit
IsResumed object_property_value = ⊥
IsResumed start_array = ⊥
IsResumed middle_array = Unit

-- A mode behind a value in a container.
abbrev pub IsInside : JsonWriterMode → Type 0
IsInside document_start = ⊥
IsInside start_object = ⊥
IsInside object_property_name = Unit
IsInside object_property_value = ⊥
IsInside start_array = ⊥
IsInside middle_array = Unit

-- The last token is one that the reader goes on from, as the printer does from its mode.
abbrev pub Awaits : JsonWriterMode → JsonToken → Type 0
Awaits document_start t = Unit
Awaits start_object t = t ≡ object_token
Awaits object_property_name t =
    (token_eq t property_name ≡ false) × (token_eq t object_token ≡ false)
Awaits object_property_value t = t ≡ property_name
Awaits start_array t = t ≡ array_token
Awaits middle_array t = token_eq t array_token ≡ false

-- A value's last token.
abbrev pub IsLast : JsonToken → Type 0
IsLast t =
    (token_eq t property_name ≡ false)
    × (token_eq t object_token ≡ false)
    × (token_eq t array_token ≡ false)

pub IsResumed-Awaits : (m : JsonWriterMode) (t : JsonToken) → IsResumed m → IsLast t → Awaits m t
IsResumed-Awaits document_start t h k = tt
IsResumed-Awaits start_object t h k = absurd h
IsResumed-Awaits object_property_name t h (a, b, c) = (a, b)
IsResumed-Awaits object_property_value t h k = absurd h
IsResumed-Awaits start_array t h k = absurd h
IsResumed-Awaits middle_array t h (a, b, c) = c

-- A number needs something behind it that ends it.
abbrev pub Ends : Call → List ℕ → Type 0
Ends (number v) rest = EndsNumber rest
Ends _ rest = Unit

abbrev pub StaysInside : Call → JsonWriterMode → Type 0
StaysInside (number v) m = IsInside m
StaysInside _ m = Unit

-- `Next` returned true, with what the call printed, and stands ready for the next call, at white
-- space perhaps.
pub record Reading (c : Call) (m : JsonWriterMode) (modes : List JsonWriterMode)
    (before : JsonReader) (rest : List ℕ) (a : Bool × JsonReader) : Type 0 where
  pub reader : JsonReader
  pub token : JsonToken
  pub pad : List ℕ
  pub returns : a ≡ (true, ready reader m modes token (pad ++ rest))
  pub shows : seen_as token reader ≡ some c
  pub awaits : Awaits m token
  pub pad-IsSpace : All IsSpace pad
  pub no_error : reader.error_code ≡ before.error_code

module _ (strtod_overflows : List ℕ → Bool) where
  -- What a call printed, and that `Next` reads it.
  pub record Step (c : Call) (w w' : JsonWriter) : Type 0 where
    pub bytes : List ℕ
    pub prints : w'.out ≡ w.out ++ bytes
    pub some_bytes : 0 < length bytes
    pub ends_number : IsInside w.mode → EndsNumber bytes
    pub resumes : All IsResumed w'.mode_stack
    pub stays : StaysInside c w'.mode
    pub reads :
        (r : JsonReader) (t : JsonToken) (pad rest : List ℕ)
        → Awaits w.mode t
        → All IsSpace pad
        → Ends c rest
        → Reading c w'.mode w'.mode_stack r rest
            (next strtod_overflows (ready r w.mode w.mode_stack t (pad ++ (bytes ++ rest))))

pub All-spaces : (i : ℤ) → All IsSpace (spaces i)
All-spaces (pos n) = go n
  where
    go : (n : ℕ) → All IsSpace (replicate n b' ')
    go zero = tt
    go (suc n) = (refl, go n)
All-spaces (negsuc n) = tt

pub All-new_line : (w : JsonWriter) → All IsSpace (new_line w)
unfolding new_line
All-new_line w = choose (w.should_indent && is_zero w.pack)
  where
    choose : (b : Bool) → All IsSpace (if b then b'\n' ∷ spaces w.indent else [])
    choose true = (refl, All-spaces w.indent)
    choose false = tt

pub comma_space : JsonWriter → List ℕ
comma_space w = if w.should_indent && not (is_zero w.pack) then b' ' ∷ [] else []

pub comma-IsSpace :
    (w : JsonWriter) → (comma w ≡ b',' ∷ comma_space w) × All IsSpace (comma_space w)
unfolding comma comma_space
comma-IsSpace w = (refl, choose (w.should_indent && not (is_zero w.pack)))
  where
    choose : (b : Bool) → All IsSpace (if b then b' ' ∷ [] else [])
    choose true = (refl, tt)
    choose false = tt

pub lead-Before :
    {m n : JsonWriterMode} (v : Value m n) (w : JsonWriter) (t : JsonToken) (pad : List ℕ)
    → Awaits m t
    → All IsSpace pad
    → Before (reads_in m) t (pad ++ lead v w)
unfolding comma
lead-Before top w t pad a h = at_start t (pad ++ []) (All-append IsSpace pad [] h tt)
lead-Before named w t pad a h =
    subst (λ k. Before object_mode k (pad ++ [])) (sym a)
      (after_name (pad ++ []) (All-append IsSpace pad [] h tt))
lead-Before first w t pad a h =
    subst (λ k. Before array_mode k (pad ++ new_line w)) (sym a)
      (first_item (pad ++ new_line w) (All-append IsSpace pad (new_line w) h (All-new_line w)))
lead-Before later w t pad a h =
    let (e, s) = comma-IsSpace w in
    subst (λ k. Before array_mode t (pad ++ (k ++ new_line w))) (sym e)
      (after_item t pad (comma_space w ++ new_line w) a h
        (All-append IsSpace (comma_space w) (new_line w) s (All-new_line w)))

lead-EndsNumber :
    {m n : JsonWriterMode} (v : Value m n) (w : JsonWriter) (text : List ℕ)
    → IsInside m
    → EndsNumber (lead v w ++ text)
lead-EndsNumber top w text h = absurd h
lead-EndsNumber named w text h = absurd h
lead-EndsNumber first w text h = absurd h
lead-EndsNumber later w text h =
    subst (λ k. EndsNumber ((k ++ new_line w) ++ text)) (sym (comma-IsSpace w).0) refl

pub Value-reads_in : {m n : JsonWriterMode} → Value m n → reads_in m ≡ reads_in n
Value-reads_in top = refl
Value-reads_in named = refl
Value-reads_in first = refl
Value-reads_in later = refl

pub Value-IsResumed : {m n : JsonWriterMode} → Value m n → IsResumed n
Value-IsResumed top = tt
Value-IsResumed named = tt
Value-IsResumed first = tt
Value-IsResumed later = tt

module _ (strtod_overflows : List ℕ → Bool) where
  -- A call that writes a value, from what `Next` does at the text of the value itself.
  pub value-Step :
      {m n : JsonWriterMode} (v : Value m n) (c : Call) (w w' : JsonWriter) (text : List ℕ)
      → w'.out ≡ (w.out ++ lead v w) ++ text
      → 0 < length text
      → All IsResumed w'.mode_stack
      → StaysInside c w'.mode
      → ((r : JsonReader) (t : JsonToken) (before rest : List ℕ)
          → Before (reads_in m) t before
          → Ends c rest
          → Reading c w'.mode w'.mode_stack r rest
              (next strtod_overflows (ready r m w.mode_stack t (before ++ (text ++ rest)))))
      → Step strtod_overflows c (record w { mode = m }) w'
  value-Step {m} v c w w' text e h s k f = record {
    bytes = lead v w ++ text;
    prints = e ∙ append_assoc w.out (lead v w) text;
    some_bytes = omega (arith, length-append (lead v w) text);
    ends_number = lead-EndsNumber v w text;
    resumes = s;
    stays = k;
    reads = λ r t pad rest a p d.
        subst
          (λ u.
            Reading c w'.mode w'.mode_stack r rest
              (next strtod_overflows (ready r m w.mode_stack t u)))
          (append_assoc pad (lead v w) (text ++ rest)
            ∙ ap (λ u. pad ++ u) (sym (append_assoc (lead v w) text rest)))
          (f r t (pad ++ lead v w) rest (lead-Before v w t pad a p) d);
  }
