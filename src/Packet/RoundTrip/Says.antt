-- ===== src/Packet/RoundTrip/Says.antt =====
-- Programs that drive a `JsonWriter`, with the calls that a reader of their text sees.
use cheaproute.Prelude.{ℕ, ◌<◌, ◌^◌, ◌≡◌, true, List, [], ◌∷◌, ◌++◌, All, ascii}
use cheaproute.Prelude.Int.{ℤ, pos, increment}
use Prim.Native.String.{String}
use cheaproute.JsonWriter.{
  JsonWriterMode, JsonWriter, start_object, object_property_value, start_array, middle_array,
}
use cheaproute.JsonWriter.Values.{Value}
use cheaproute.JsonRoundTrip.Escapes.{IsChar}
use cheaproute.JsonRoundTrip.Calls.{
  Call, opens_array, closes_array, opens_object, closes_object, name, text as says_text, number,
  Prints,
}
use cheaproute.Packet.Texts.{is_chars, is_chars-All}
use cheaproute.Packet.Traced.{
  Said, Prints-append, IsWithin, text-Said, int-Said, open_array-Said, open_object-Said,
  close_array-Said, close_object-Said, property-Said, pack-Said, unpack-Said,
}
use cheaproute.Packet.Landing.{
  View, view, Lands, at, mode_of, InArray, InObject, empty_array, items,
}
use cheaproute.Packet.Moves.{
  Moves, ◌▹◌, done-Moves, text-Moves, string-Moves, int-Moves, open_array-Moves, open_object-Moves,
  close_array-Moves, close_object-Moves, property-Moves, pack-Moves, unpack-Moves,
}
use cheaproute.Packet.Moves.Arrays.{item}
use cheaproute.Packet.Writing.{
  Outcome, wrote, assert_failed, out_of_fuel, Action, and_then, ◌>>◌, done, property, string, text,
  int, open_array, close_array, open_object, close_object, pack, unpack,
}

-- A program puts its calls in front of those that follow.
abbrev pub Front : Type 0
Front = List Call → List Call

abbrev pub one : Call → Front
one c rest = c ∷ rest

-- Whatever run of the printer follows, the calls `f` come before it.
abbrev pub Leads : Front → JsonWriter → Outcome → Type 0
Leads f w (wrote v) = (rest : List Call) (w' : JsonWriter) → Prints v rest w' → Prints w (f rest) w'
Leads f w assert_failed = Unit
Leads f w out_of_fuel = Unit

-- From one view to another, with exactly the calls `f`; their text can be read where `P` holds.
pub record Says (P : Type 0) (f : Front) (s t : View) (a : Action) : Type 0 where
  pub moves : Moves P s t a
  pub says : P → (w : JsonWriter) → view w ≡ s → Leads f w (a w)

said : (xs : List Call) (w : JsonWriter) (o : Outcome) → Said xs w o → Leads (λ r. xs ++ r) w o
said xs w (wrote v) p = λ rest u q. Prints-append p q
said xs w assert_failed p = tt
said xs w out_of_fuel p = tt

Leads-then :
    (f g : Front) (w v : JsonWriter) (o : Outcome)
    → ((rest : List Call) (w' : JsonWriter) → Prints v rest w' → Prints w (f rest) w')
    → Leads g v o
    → Leads (λ r. f (g r)) w o
Leads-then f g w v (wrote u) l k = λ rest x q. l (g rest) x (k rest x q)
Leads-then f g w v assert_failed l k = tt
Leads-then f g w v out_of_fuel l k = tt

and_then-Leads :
    {P : Type 0} (f g : Front) (w : JsonWriter) (t u : View) (o : Outcome) (b : Action)
    → P
    → Lands t o
    → Leads f w o
    → Says P g t u b
    → Leads (λ r. f (g r)) w (and_then o b)
and_then-Leads f g w t u (wrote v) b p h q m = Leads-then f g w v (b v) q (m.says p v h)
and_then-Leads f g w t u assert_failed b p h q m = tt
and_then-Leads f g w t u out_of_fuel b p h q m = tt

infixl 5 ◌▸◌
pub ◌▸◌ :
    {P : Type 0} {f g : Front} {s t u : View} {a b : Action}
    → Says P f s t a
    → Says P g t u b
    → Says P (λ r. f (g r)) s u (a >> b)
◌▸◌ {P} {f} {g} {s} {t} {u} {a} {b} m n = record {
  moves = m.moves ▹ n.moves;
  says = λ p w h. and_then-Leads f g w t u (a w) b p (m.moves.run w h) (m.says p w h) n;
}

pub done-Says : {P : Type 0} {s : View} → Says P (λ r. r) s s done
done-Says = record { moves = done-Moves; says = λ p w h rest u q. q }

module _ {m n : JsonWriterMode} {st : List JsonWriterMode} {p : ℤ} (v : Value m n) where
  pub text-Says :
      {P : Type 0} (str : List ℕ)
      → (P → All IsChar str)
      → Says P (one (says_text str)) (at m st p) (at n st p) (text str)
  text-Says str f = record {
    moves = text-Moves v str f;
    says =
        λ q w h. said (says_text str ∷ []) w (text str w) (text-Said v w (mode_of w h) str (f q));
  }

  pub string-Says :
      {P : Type 0} (str : String)
      → is_chars (ascii str) ≡ true
      → Says P (one (says_text (ascii str))) (at m st p) (at n st p) (string str)
  string-Says str f = record {
    moves = string-Moves v str f;
    says = λ q w h.
        said (says_text (ascii str) ∷ []) w (string str w)
          (text-Said v w (mode_of w h) (ascii str) (is_chars-All (ascii str) f));
  }

  pub int-Says :
      {P : Type 0} (value : ℕ)
      → IsWithin v
      → (P → value < 2 ^ 63)
      → Says P (one (number (pos value))) (at m st p) (at n st p) (int value)
  int-Says value i f = record {
    moves = int-Moves v value i f;
    says = λ q w h.
        said (number (pos value) ∷ []) w (int value w) (int-Said v w (mode_of w h) value i (f q));
  }

  pub open_array-Says :
      {P : Type 0} → Says P (one opens_array) (at m st p) (at start_array (n ∷ st) p) open_array
  open_array-Says = record {
    moves = open_array-Moves v;
    says = λ q w h. said (opens_array ∷ []) w (open_array w) (open_array-Said v w (mode_of w h));
  }

  pub open_object-Says :
      {P : Type 0} → Says P (one opens_object) (at m st p) (at start_object (n ∷ st) p) open_object
  open_object-Says = record {
    moves = open_object-Moves v;
    says = λ q w h. said (opens_object ∷ []) w (open_object w) (open_object-Said v w (mode_of w h));
  }

module _ {P : Type 0} {k n : JsonWriterMode} {st : List JsonWriterMode} {p : ℤ} where
  pub close_array-Says :
      InArray k → Says P (one closes_array) (at k (n ∷ st) p) (at n st p) close_array
  close_array-Says i = record {
    moves = close_array-Moves i;
    says = λ q w h. said (closes_array ∷ []) w (close_array w) (close_array-Said w);
  }

  pub close_object-Says :
      InObject k → Says P (one closes_object) (at k (n ∷ st) p) (at n st p) close_object
  close_object-Says i = record {
    moves = close_object-Moves i;
    says = λ q w h. said (closes_object ∷ []) w (close_object w) (close_object-Said w);
  }

module _ {P : Type 0} {k : JsonWriterMode} {st : List JsonWriterMode} {p : ℤ} where
  pub property-Says :
      InObject k
      → (s : String) → is_chars (ascii s) ≡ true
      → Says P (one (name (ascii s))) (at k st p) (at object_property_value st p) (property s)
  property-Says i s c = record {
    moves = property-Moves i s c;
    says = λ q w h.
        said (name (ascii s) ∷ []) w (property s w)
          (property-Said w (ascii s) (is_chars-All (ascii s) c));
  }

  pub pack-Says : Says P (λ r. r) (at k st p) (at k st (increment p)) pack
  pack-Says = record { moves = pack-Moves; says = λ q w h. said [] w (pack w) (pack-Said w) }

  pub unpack-Says : Says P (λ r. r) (at k st (increment p)) (at k st p) unpack
  unpack-Says = record {
    moves = unpack-Moves;
    says = λ q w h. said [] w (unpack w) (unpack-Said w);
  }

-- The same within an array, as in the module `Moves.Arrays`.
abbrev pub SaysInside : Type 0 → Front → View → List JsonWriterMode → ℤ → Action → Type 0
SaysInside P f s st p a = (n : JsonWriterMode) × InArray n × Says P f s (at n st p) a

abbrev pub SaysItems : Type 0 → Front → List JsonWriterMode → ℤ → Action → Type 0
SaysItems P f st p a = (m : JsonWriterMode) → InArray m → SaysInside P f (at m st p) st p a

pub item-Says :
    {P : Type 0} {f : Front} {st : List JsonWriterMode} {p : ℤ} {a : Action}
    → ((m : JsonWriterMode) → Value m middle_array → Says P f (at m st p) (at middle_array st p) a)
    → SaysItems P f st p a
item-Says x m i = (middle_array, items, x m (item i))

pub no_items : {P : Type 0} {st : List JsonWriterMode} {p : ℤ} → SaysItems P (λ r. r) st p done
no_items m i = (m, i, done-Says)

pub filled-Says :
    {P : Type 0} {f g : Front} {s : View} {st : List JsonWriterMode} {p : ℤ} {a b : Action}
    → SaysInside P f s st p a
    → SaysItems P g st p b
    → SaysInside P (λ r. f (g r)) s st p (a >> b)
filled-Says l y = let k = y l.0 l.1 in (k.0, k.1, l.2 ▸ k.2)

pub then_items :
    {P : Type 0} {f g : Front} {st : List JsonWriterMode} {p : ℤ} {a b : Action}
    → SaysItems P f st p a
    → SaysItems P g st p b
    → SaysItems P (λ r. f (g r)) st p (a >> b)
then_items x y m i = filled-Says (x m i) y

-- Behind an opening bracket.
pub opened-Says :
    {P : Type 0} {f : Front} {s : View} {st : List JsonWriterMode} {p : ℤ} {a : Action}
    → Says P f s (at start_array st p) a
    → SaysInside P f s st p a
opened-Says m = (start_array, empty_array, m)

pub closed-Says :
    {P : Type 0} {f : Front} {s : View} {n : JsonWriterMode} {st : List JsonWriterMode} {p : ℤ}
    {a : Action}
    → SaysInside P f s (n ∷ st) p a
    → Says P (λ r. f (closes_array ∷ r)) s (at n st p) (a >> close_array)
closed-Says l = l.2 ▸ close_array-Says l.1
