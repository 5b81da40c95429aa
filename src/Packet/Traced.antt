-- ===== src/Packet/Traced.antt =====
-- Programs that drive a `JsonWriter`, as runs of the printer whose text can be read.
use cheaproute.Prelude.{
  ℕ, ◌^◌, ◌<◌, ◌≡◌, ◌≢◌, refl, sym, ◌∙◌, Option, none, some, List, [], ◌∷◌, ◌++◌, All,
}
use cheaproute.Prelude.Int.{pos}
use cheaproute.JsonWriter.{
  JsonWriter, JsonWriterMode, document_start, start_object, write_property_name, write_string,
  write_uint32, write_integer, begin_array, end_array, begin_object, end_object, begin_pack,
  end_pack,
}
use cheaproute.JsonWriter.Text.{signed_decimal}
use cheaproute.JsonWriter.Values.{Value, top, named, first, later}
use cheaproute.JsonRoundTrip.Escapes.{IsChar}
use cheaproute.JsonRoundTrip.Calls.{
  Call, opens_array, closes_array, opens_object, closes_object, name, text, number, perform,
  IsReadable, Prints, done, pack, unpack, call,
}
use cheaproute.Packet.Writing.{Outcome, wrote, assert_failed, out_of_fuel, outcome}

-- What was written since is a run of the printer, of calls that can be read back.
abbrev pub Traced : JsonWriter → Outcome → Type 0
Traced w (wrote w') = (calls : List Call) × Prints w calls w'
Traced w assert_failed = Unit
Traced w out_of_fuel = Unit

-- What was written since is a run of the printer, of exactly the given calls.
abbrev pub Said : List Call → JsonWriter → Outcome → Type 0
Said calls w (wrote w') = Prints w calls w'
Said calls w assert_failed = Unit
Said calls w out_of_fuel = Unit

pub Said-Traced : (calls : List Call) (w : JsonWriter) (o : Outcome) → Said calls w o → Traced w o
Said-Traced calls w (wrote w') p = (calls, p)
Said-Traced calls w assert_failed p = tt
Said-Traced calls w out_of_fuel p = tt

pub Prints-append :
    {u v w : JsonWriter} {xs ys : List Call} → Prints u xs v → Prints v ys w → Prints u (xs ++ ys) w
Prints-append done q = q
Prints-append (pack p) q = pack (Prints-append p q)
Prints-append (unpack p) q = unpack (Prints-append p q)
Prints-append (call h e p) q = call h e (Prints-append p q)

pub then-Traced :
    {w v : JsonWriter} {xs : List Call} (o : Outcome) → Prints w xs v → Traced v o → Traced w o
then-Traced (wrote w') p (ys, q) = (_, Prints-append p q)
then-Traced assert_failed p h = tt
then-Traced out_of_fuel p h = tt

pub then-Said :
    {w v : JsonWriter} (xs ys : List Call) (o : Outcome)
    → Prints w xs v
    → Said ys v o
    → Said (xs ++ ys) w o
then-Said xs ys (wrote w') p q = Prints-append p q
then-Said xs ys assert_failed p h = tt
then-Said xs ys out_of_fuel p h = tt

call-Said :
    (c : Call) (w : JsonWriter) (o : Option JsonWriter)
    → IsReadable w c
    → perform c w ≡ o
    → Said (c ∷ []) w (outcome o)
call-Said c w none h e = tt
call-Said c w (some v) h e = call h e done

not_brace : {m n : JsonWriterMode} → Value m n → m ≢ start_object
not_brace top e = cc
not_brace named e = cc
not_brace first e = cc
not_brace later e = cc

-- Not at the top of the document.
abbrev pub IsWithin : {m n : JsonWriterMode} → Value m n → Type 0
IsWithin top = ⊥
IsWithin named = Unit
IsWithin first = Unit
IsWithin later = Unit

not_top : {m n : JsonWriterMode} (v : Value m n) → IsWithin v → m ≢ document_start
not_top top h e = absurd h
not_top named h e = cc
not_top first h e = cc
not_top later h e = cc

module _ {m n : JsonWriterMode} (v : Value m n) (w : JsonWriter) (e : w.mode ≡ m) where
  at_value : w.mode ≢ start_object
  at_value d = not_brace v (sym e ∙ d)

  pub text-Said :
      (str : List ℕ) → All IsChar str → Said (text str ∷ []) w (outcome (write_string str w))
  unfolding perform
  text-Said str h = call-Said (text str) w (write_string str w) (at_value, h) refl

  pub int-Said :
      (value : ℕ)
      → IsWithin v
      → value < 2 ^ 63
      → Said (number (pos value) ∷ []) w (outcome (write_integer (pos value) w))
  unfolding perform
  int-Said value i h =
      call-Said (number (pos value)) w (write_integer (pos value) w)
        (at_value, (λ d. not_top v i (sym e ∙ d)), h) refl

  pub uint-Said :
      (value : ℕ)
      → IsWithin v
      → value < 2 ^ 63
      → Said (number (pos value) ∷ []) w (outcome (write_uint32 value w))
  unfolding perform write_uint32 write_integer signed_decimal
  uint-Said value i h =
      call-Said (number (pos value)) w (write_uint32 value w)
        (at_value, (λ d. not_top v i (sym e ∙ d)), h) refl

  pub open_array-Said : Said (opens_array ∷ []) w (outcome (begin_array w))
  unfolding perform
  open_array-Said = call-Said opens_array w (begin_array w) at_value refl

  pub open_object-Said : Said (opens_object ∷ []) w (outcome (begin_object w))
  unfolding perform
  open_object-Said = call-Said opens_object w (begin_object w) at_value refl

module _ (w : JsonWriter) where
  pub close_array-Said : Said (closes_array ∷ []) w (outcome (end_array w))
  unfolding perform
  close_array-Said = call-Said closes_array w (end_array w) tt refl

  pub close_object-Said : Said (closes_object ∷ []) w (outcome (end_object w))
  unfolding perform
  close_object-Said = call-Said closes_object w (end_object w) tt refl

  pub property-Said :
      (str : List ℕ) → All IsChar str → Said (name str ∷ []) w (outcome (write_property_name str w))
  unfolding perform
  property-Said str h = call-Said (name str) w (write_property_name str w) h refl

  pub pack-Said : Said [] w (wrote (begin_pack w))
  pack-Said = pack done

  pub unpack-Said : Said [] w (wrote (end_pack w))
  unpack-Said = unpack done
