-- ===== src/JsonWriter/Values.antt =====
-- base/json_writer.cc: the places where the printer takes a value, and what `BeginValue` prints
-- there.
use cheaproute.Prelude.{
  ℕ, ◌≡◌, ◌≢◌, refl, sym, ap, some, none, List, [], ◌++◌, append-nil, ◌⊎◌, inl, inr,
}
use cheaproute.JsonWriter.{
  JsonWriter, JsonWriterMode, document_start, start_object, object_property_name,
  object_property_value, start_array, middle_array, new_line, comma, begin_value_in,
}

-- Where a value may be written, and the mode after it.
pub data Value : JsonWriterMode → JsonWriterMode → Type 0 where
  top : Value document_start document_start
  named : Value object_property_value object_property_name
  first : Value start_array middle_array
  later : Value middle_array middle_array

abbrev pub lead : {m n : JsonWriterMode} → Value m n → JsonWriter → List ℕ
lead top w = []
lead named w = []
lead first w = new_line w
lead later w = comma w ++ new_line w

pub begins-lead :
    {m n : JsonWriterMode} (v : Value m n) (w : JsonWriter)
    → begin_value_in m (record w { mode = m })
      ≡ some (record w { out = w.out ++ lead v w; mode = n })
unfolding begin_value_in
begins-lead top w =
    ap (λ t. some (record w { out = t; mode = document_start })) (sym (append-nil w.out))
begins-lead named w =
    ap (λ t. some (record w { out = t; mode = object_property_name })) (sym (append-nil w.out))
begins-lead first w = unfold new_line in refl
begins-lead later w = unfold new_line comma in refl

-- `BeginValue` takes a value at these places only, and behind an opening brace.
pub begins-Value :
    (m : JsonWriterMode) (w : JsonWriter)
    → m ≢ start_object
    → (begin_value_in m w ≡ none) ⊎ ((n : JsonWriterMode) × Value m n)
unfolding begin_value_in
begins-Value document_start w h = inr (document_start, top)
begins-Value start_object w h = absurd (h refl)
begins-Value object_property_name w h = inl refl
begins-Value object_property_value w h = inr (object_property_name, named)
begins-Value start_array w h = inr (middle_array, first)
begins-Value middle_array w h = inr (middle_array, later)
