-- ===== src/Packet/Landing.antt =====
-- What the calls of a `JsonWriter` do to its modes and to its packing.
use cheaproute.Prelude.{subst, ℕ, ◌≡◌, refl, sym, ap, Option, none, some, List, [], ◌∷◌}
use cheaproute.Prelude.Int.{ℤ}
use cheaproute.JsonWriter.{
  JsonWriterMode, start_object, object_property_name, object_property_value, start_array,
  middle_array, JsonWriter, begin_value_in, begin_value, write_property_name_in, end_array_in,
  end_object_in, end_container, then_emit, begin_container,
}
use cheaproute.JsonWriter.Values.{Value, top, named, first, later}
use cheaproute.Packet.Writing.{Outcome, wrote, assert_failed, out_of_fuel, outcome}

pub record View : Type 0 where
  pub mode : JsonWriterMode
  pub stack : List JsonWriterMode
  pub packing : ℤ

abbrev pub view : JsonWriter → View
view w = record { mode = w.mode; stack = w.mode_stack; packing = w.pack }

-- The calls return, no `assert` failed, and the writer has the view.
abbrev pub Lands : View → Outcome → Type 0
Lands t (wrote w) = view w ≡ t
Lands t assert_failed = ⊥
Lands t out_of_fuel = ⊥

abbrev pub at : JsonWriterMode → List JsonWriterMode → ℤ → View
at m st p = record { mode = m; stack = st; packing = p }

abbrev pub Written : View → Option JsonWriter → Type 0
Written t o = Lands t (outcome o)

-- The parts of a view.
pub mode_of : (w : JsonWriter) {v : View} → view w ≡ v → w.mode ≡ v.mode
mode_of w h = ap (λ v. v.mode) h

pub view-with :
    (w : JsonWriter) {v : View} (n : JsonWriterMode)
    → view w ≡ v
    → at n w.mode_stack w.pack ≡ at n v.stack v.packing
view-with w n h = ap (λ v. at n v.stack v.packing) h

begin_value_in-Written :
    {m n : JsonWriterMode} (w : JsonWriter) (v : Value m n)
    → w.mode ≡ m
    → Written (at n w.mode_stack w.pack) (begin_value_in m w)
unfolding begin_value_in
begin_value_in-Written w top f = ap (λ k. at k w.mode_stack w.pack) f
begin_value_in-Written w named f = refl
begin_value_in-Written w first f = refl
begin_value_in-Written w later f = ap (λ k. at k w.mode_stack w.pack) f

-- What is written behind `BeginValue` changes nothing of the view.
pub then_emit-Written :
    (t : View) (o : Option JsonWriter) (bytes : List ℕ)
    → Written t o
    → Written t (then_emit o bytes)
then_emit-Written t none bytes h = h
then_emit-Written t (some w) bytes h = h

pub container-Written :
    (t : View) (bracket : ℕ) (k : JsonWriterMode) (o : Option JsonWriter)
    → Written t o
    → Written (at k (t.mode ∷ t.stack) t.packing) (begin_container bracket k o)
container-Written t bracket k none h = h
container-Written t bracket k (some w) h = ap (λ v. at k (v.mode ∷ v.stack) v.packing) h

module _ {m n : JsonWriterMode} {st : List JsonWriterMode} {p : ℤ} (v : Value m n) where
  pub begin_value-Written :
      (w : JsonWriter) → view w ≡ at m st p → Written (at n st p) (begin_value w)
  unfolding begin_value
  begin_value-Written w h =
      subst (λ t. Written t (begin_value_in w.mode w)) (view-with w n h)
        (subst (λ k. Written (at n w.mode_stack w.pack) (begin_value_in k w)) (sym (mode_of w h))
          (begin_value_in-Written w v (mode_of w h)))

end_container-Written :
    (n : JsonWriterMode) (st : List JsonWriterMode) (bracket : ℕ) (w : JsonWriter)
    (modes : List JsonWriterMode)
    → modes ≡ n ∷ st
    → Written (at n st w.pack) (end_container bracket modes w)
unfolding end_container
end_container-Written n st bracket w [] e = cc
end_container-Written n st bracket w (m ∷ modes) e = cc

-- The two modes of an open array, and the two in which an object may end.
pub data InArray : JsonWriterMode → Type 0 where
  empty_array : InArray start_array
  items : InArray middle_array

pub data InObject : JsonWriterMode → Type 0 where
  empty_object : InObject start_object
  properties : InObject object_property_name

pub end_array_in-Written :
    {k n : JsonWriterMode} {st : List JsonWriterMode} (w : JsonWriter)
    → InArray k
    → w.mode_stack ≡ n ∷ st
    → Written (at n st w.pack) (end_array_in k w)
unfolding end_array_in
end_array_in-Written w empty_array e = end_container-Written _ _ b']' w w.mode_stack e
end_array_in-Written w items e = end_container-Written _ _ b']' w w.mode_stack e

pub end_object_in-Written :
    {k n : JsonWriterMode} {st : List JsonWriterMode} (w : JsonWriter)
    → InObject k
    → w.mode_stack ≡ n ∷ st
    → Written (at n st w.pack) (end_object_in k w)
unfolding end_object_in
end_object_in-Written w empty_object e = end_container-Written _ _ b'}' w w.mode_stack e
end_object_in-Written w properties e = end_container-Written _ _ b'}' w w.mode_stack e

pub write_name-Written :
    {k : JsonWriterMode} (str : List ℕ) (w : JsonWriter)
    → InObject k
    → Written (at object_property_value w.mode_stack w.pack) (write_property_name_in k str w)
unfolding write_property_name_in
write_name-Written str w empty_object = refl
write_name-Written str w properties = refl

module _ {k n : JsonWriterMode} {st : List JsonWriterMode} {p : ℤ} where
  pub end_with :
      (w : JsonWriter)
      → view w ≡ at k (n ∷ st) p
      → (end_in : JsonWriterMode → JsonWriter → Option JsonWriter)
      → Written (at n st w.pack) (end_in k w)
      → Written (at n st p) (end_in w.mode w)
  end_with w h end_in f =
      subst (λ q. Written (at n st q) (end_in w.mode w)) (ap (λ v. v.packing) h)
        (subst (λ j. Written (at n st w.pack) (end_in j w)) (sym (mode_of w h)) f)
