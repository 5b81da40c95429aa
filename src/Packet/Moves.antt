-- ===== src/Packet/Moves.antt =====
-- What a program's calls do to the modes and to the packing of a `JsonWriter`, whatever they
-- print.
pub mod Arrays
pub mod Fields
use cheaproute.Prelude.{
  All, ◌<◌, ◌^◌, ascii, subst, ℕ, ◌≡◌, refl, sym, ◌∙◌, ap, Bool, true, false, Option, none, some,
  List, [], ◌∷◌, if◌then◌else◌,
}
use cheaproute.Prelude.Int.{ℤ, increment, decrement, decrement-increment}
use Prim.Native.String.{String}
use cheaproute.JsonWriter.{
  JsonWriterMode, document_start, start_object, object_property_name, object_property_value,
  start_array, middle_array, JsonWriter, begin_value_in, begin_value, write_property_name_in,
  write_property_name, write_string, write_uint32, write_integer, begin_array, end_array,
  end_array_in, begin_object, end_object, end_object_in, end_container, begin_pack, end_pack,
  then_emit, begin_container,
}
use cheaproute.JsonWriter.Values.{Value, top, named, first, later}
use cheaproute.JsonRoundTrip.Escapes.{IsChar}
use cheaproute.JsonRoundTrip.Calls.{done as nothing_printed}
use cheaproute.Packet.Texts.{is_chars, is_chars-All}
use cheaproute.Packet.Traced.{
  Traced, Said-Traced, then-Traced, IsWithin, text-Said, int-Said, uint-Said, open_array-Said,
  open_object-Said, close_array-Said, close_object-Said, property-Said, pack-Said, unpack-Said,
}
use cheaproute.Packet.Landing.{
  View, view, Lands, at, Written, InArray, InObject, empty_array, items, empty_object, properties,
  begin_value-Written, then_emit-Written, container-Written, end_with, end_array_in-Written,
  end_object_in-Written, write_name-Written, mode_of, view-with,
}
use cheaproute.Packet.Writing.{
  Outcome, wrote, assert_failed, out_of_fuel, Action, outcome, and_then, ◌>>◌, done, property,
  string, text, int, uint, open_array, close_array, open_object, close_object, pack, unpack,
}

-- From one view to another; where `P` holds, with a text that can be read.
pub record Moves (P : Type 0) (s t : View) (a : Action) : Type 0 where
  pub run : (w : JsonWriter) → view w ≡ s → Lands t (a w)
  pub trace : P → (w : JsonWriter) → view w ≡ s → Traced w (a w)

and_then-Lands :
    {P : Type 0} (t u : View) (o : Outcome) (b : Action)
    → Lands t o
    → Moves P t u b
    → Lands u (and_then o b)
and_then-Lands t u (wrote w) b h m = m.run w h
and_then-Lands t u assert_failed b h m = h
and_then-Lands t u out_of_fuel b h m = h

and_then-Traced :
    {P : Type 0} (w : JsonWriter) (t u : View) (o : Outcome) (b : Action)
    → P
    → Lands t o
    → Traced w o
    → Moves P t u b
    → Traced w (and_then o b)
and_then-Traced w t u (wrote w') b p h (xs, q) m = then-Traced (b w') q (m.trace p w' h)
and_then-Traced w t u assert_failed b p h q m = tt
and_then-Traced w t u out_of_fuel b p h q m = tt

infixl 5 ◌▹◌
pub ◌▹◌ :
    {P : Type 0} {s t u : View} {a b : Action}
    → Moves P s t a
    → Moves P t u b
    → Moves P s u (a >> b)
◌▹◌ {P} {s} {t} {u} {a} {b} m n = record {
  run = λ w h. and_then-Lands t u (a w) b (m.run w h) n;
  trace = λ p w h. and_then-Traced w t u (a w) b p (m.run w h) (m.trace p w h) n;
}

pub done-Moves : {P : Type 0} {s : View} → Moves P s s done
done-Moves = record { run = λ w h. h; trace = λ p w h. ([], nothing_printed) }

pub if-Moves :
    {P : Type 0} {s t : View} (b : Bool) {x y : Action}
    → Moves P s t x
    → Moves P s t y
    → Moves P s t (if b then x else y)
if-Moves true m n = m
if-Moves false m n = n

module _ {m n : JsonWriterMode} {st : List JsonWriterMode} {p : ℤ} (v : Value m n) where
  pub text-Moves :
      {P : Type 0} (str : List ℕ)
      → (P → All IsChar str)
      → Moves P (at m st p) (at n st p) (text str)
  unfolding write_string
  text-Moves str f = record {
    run = λ w h. then_emit-Written (at n st p) (begin_value w) _ (begin_value-Written v w h);
    trace = λ q w h. Said-Traced _ w _ (text-Said v w (mode_of w h) str (f q));
  }

  pub string-Moves :
      {P : Type 0} (str : String)
      → is_chars (ascii str) ≡ true
      → Moves P (at m st p) (at n st p) (string str)
  unfolding write_string
  string-Moves str f = record {
    run = λ w h. then_emit-Written (at n st p) (begin_value w) _ (begin_value-Written v w h);
    trace = λ q w h.
        Said-Traced _ w _ (text-Said v w (mode_of w h) (ascii str) (is_chars-All (ascii str) f));
  }

  pub int-Moves :
      {P : Type 0} (value : ℕ)
      → IsWithin v
      → (P → value < 2 ^ 63)
      → Moves P (at m st p) (at n st p) (int value)
  unfolding write_integer
  int-Moves value i f = record {
    run = λ w h. then_emit-Written (at n st p) (begin_value w) _ (begin_value-Written v w h);
    trace = λ q w h. Said-Traced _ w _ (int-Said v w (mode_of w h) value i (f q));
  }

  pub uint-Moves :
      {P : Type 0} (value : ℕ)
      → IsWithin v
      → (P → value < 2 ^ 63)
      → Moves P (at m st p) (at n st p) (uint value)
  unfolding write_uint32
  uint-Moves value i f = record {
    run = λ w h. then_emit-Written (at n st p) (begin_value w) _ (begin_value-Written v w h);
    trace = λ q w h. Said-Traced _ w _ (uint-Said v w (mode_of w h) value i (f q));
  }

  pub open_array-Moves : {P : Type 0} → Moves P (at m st p) (at start_array (n ∷ st) p) open_array
  unfolding begin_array
  open_array-Moves = record {
    run = λ w h.
        container-Written (at n st p) b'[' start_array (begin_value w) (begin_value-Written v w h);
    trace = λ q w h. Said-Traced _ w _ (open_array-Said v w (mode_of w h));
  }

  pub open_object-Moves :
      {P : Type 0} → Moves P (at m st p) (at start_object (n ∷ st) p) open_object
  unfolding begin_object
  open_object-Moves = record {
    run = λ w h.
        container-Written (at n st p) b'{' start_object (begin_value w) (begin_value-Written v w h);
    trace = λ q w h. Said-Traced _ w _ (open_object-Said v w (mode_of w h));
  }

module _ {k n : JsonWriterMode} {st : List JsonWriterMode} {p : ℤ} where
  pub close_array-Moves :
      {P : Type 0} → InArray k → Moves P (at k (n ∷ st) p) (at n st p) close_array
  unfolding end_array
  close_array-Moves i = record {
    run = λ w h. end_with w h end_array_in (end_array_in-Written w i (ap (λ v. v.stack) h));
    trace = λ q w h. Said-Traced _ w _ (close_array-Said w);
  }

  pub close_object-Moves :
      {P : Type 0} → InObject k → Moves P (at k (n ∷ st) p) (at n st p) close_object
  unfolding end_object
  close_object-Moves i = record {
    run = λ w h. end_with w h end_object_in (end_object_in-Written w i (ap (λ v. v.stack) h));
    trace = λ q w h. Said-Traced _ w _ (close_object-Said w);
  }

module _ {k : JsonWriterMode} {st : List JsonWriterMode} {p : ℤ} where
  pub property-Moves :
      {P : Type 0}
      → InObject k
      → (s : String) → is_chars (ascii s) ≡ true
      → Moves P (at k st p) (at object_property_value st p) (property s)
  unfolding write_property_name
  property-Moves i s c = record {
    run = λ w h. named_by w h (write_name-Written (ascii s) w i);
    trace = λ q w h. Said-Traced _ w _ (property-Said w (ascii s) (is_chars-All (ascii s) c));
  }
    where
      named_by :
          (w : JsonWriter)
          → view w ≡ at k st p
          → Written
              (at object_property_value w.mode_stack w.pack)
              (write_property_name_in k (ascii s) w)
          → Written (at object_property_value st p) (write_property_name_in w.mode (ascii s) w)
      named_by w h f =
          subst (λ t. Written t (write_property_name_in w.mode (ascii s) w))
            (view-with w object_property_value h)
            (subst
              (λ j.
                Written (at object_property_value w.mode_stack w.pack)
                  (write_property_name_in j (ascii s) w))
              (sym (mode_of w h)) f)

  pub pack-Moves : {P : Type 0} → Moves P (at k st p) (at k st (increment p)) pack
  unfolding begin_pack
  pack-Moves = record {
    run = λ w h. ap (λ v. at v.mode v.stack (increment v.packing)) h;
    trace = λ q w h. ([], pack-Said w);
  }

  pub unpack-Moves : {P : Type 0} → Moves P (at k st (increment p)) (at k st p) unpack
  unfolding end_pack
  unpack-Moves = record {
    run = λ w h.
        ap (λ v. at v.mode v.stack (decrement v.packing)) h ∙ ap (at k st) (decrement-increment p);
    trace = λ q w h. ([], unpack-Said w);
  }
