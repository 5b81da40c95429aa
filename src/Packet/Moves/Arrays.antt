-- ===== src/Packet/Moves/Arrays.antt =====
-- What calls of a `JsonWriter` do within an array.
use cheaproute.Prelude.{ascii, ◌≡◌, Bool, true, false, List, ◌∷◌, if◌then◌else◌}
use cheaproute.Prelude.Int.{ℤ}
use Prim.Native.String.{String}
use cheaproute.JsonWriter.{JsonWriterMode, start_array, middle_array}
use cheaproute.Packet.Texts.{is_chars}
use cheaproute.Packet.Writing.{Action, ◌>>◌, done, string, open_array, close_array}
use cheaproute.JsonWriter.Values.{Value, first, later}
use cheaproute.Packet.Landing.{View, at, InArray, empty_array, items}
use cheaproute.Packet.Moves.{
  Moves, ◌▹◌, done-Moves, string-Moves, open_array-Moves, close_array-Moves,
}

-- The calls end within an array of the given writer.
abbrev pub Leaves : Type 0 → View → List JsonWriterMode → ℤ → Action → Type 0
Leaves P s st p a = (n : JsonWriterMode) × InArray n × Moves P s (at n st p) a

-- The calls add items to an array that may be empty or not.
abbrev pub Fills : Type 0 → List JsonWriterMode → ℤ → Action → Type 0
Fills P st p a = (m : JsonWriterMode) → InArray m → Leaves P (at m st p) st p a

pub item : {m : JsonWriterMode} → InArray m → Value m middle_array
item empty_array = first
item items = later

pub opened :
    {P : Type 0} {m n : JsonWriterMode} {st : List JsonWriterMode} {p : ℤ}
    → Value m n
    → Leaves P (at m st p) (n ∷ st) p open_array
opened v = (start_array, empty_array, open_array-Moves v)

pub entered :
    {P : Type 0} {s t : View} {st : List JsonWriterMode} {p : ℤ} {a b : Action}
    → Moves P s t a
    → Leaves P t st p b
    → Leaves P s st p (a >> b)
entered f l = (l.0, l.1, f ▹ l.2)

pub filled :
    {P : Type 0} {s : View} {st : List JsonWriterMode} {p : ℤ} {a b : Action}
    → Leaves P s st p a
    → Fills P st p b
    → Leaves P s st p (a >> b)
filled l f = let k = f l.0 l.1 in (k.0, k.1, l.2 ▹ k.2)

pub closed :
    {P : Type 0} {s : View} {n : JsonWriterMode} {st : List JsonWriterMode} {p : ℤ} {a : Action}
    → Leaves P s (n ∷ st) p a
    → Moves P s (at n st p) (a >> close_array)
closed l = l.2 ▹ close_array-Moves l.1

pub done-Fills : {P : Type 0} {st : List JsonWriterMode} {p : ℤ} → Fills P st p done
done-Fills m i = (m, i, done-Moves)

-- One item.
pub item-Fills :
    {P : Type 0} {st : List JsonWriterMode} {p : ℤ} {a : Action}
    → ((m : JsonWriterMode) → Value m middle_array → Moves P (at m st p) (at middle_array st p) a)
    → Fills P st p a
item-Fills f m i = (middle_array, items, f m (item i))

pub then-Fills :
    {P : Type 0} {st : List JsonWriterMode} {p : ℤ} {a b : Action}
    → Fills P st p a
    → Fills P st p b
    → Fills P st p (a >> b)
then-Fills f g m i = filled (f m i) g

pub if-Fills :
    {P : Type 0} {st : List JsonWriterMode} {p : ℤ} (c : Bool) {a b : Action}
    → Fills P st p a
    → Fills P st p b
    → Fills P st p (if c then a else b)
if-Fills true f g = f
if-Fills false f g = g

pub string-Fills :
    {P : Type 0} {st : List JsonWriterMode} {p : ℤ} (s : String)
    → is_chars (ascii s) ≡ true
    → Fills P st p (string s)
string-Fills s c = item-Fills (λ m v. string-Moves v s c)
