-- ===== src/Stream/Input/Chars.antt =====
-- `Read()` and `Peek()` of a buffered input stream, seen as its delegatee's bytes.
use cheaproute.Prelude.{ℕ, ◌<◌, ◌≡◌, refl, sym, ◌∙◌, ap, Option, List, [], ◌∷◌, ◌++◌}
use cheaproute.Stream.{InputStream, ReadResult, chunk, failure, IsRead, Delivers}
use cheaproute.Stream.Input.{
  BufferedInputStream, filled, fill_buffer, take_first, show_first, read_from, read_char, peek_from,
  peek_char, head?, tail, unread, IsOpen,
}

module _ {S : Type 0} (i : InputStream S) (rest : S → List ℕ) (Valid : S → Type 0)
    (law : Delivers i rest Valid) where
  -- Filling an empty window changes nothing of what is to be read, and leaves it empty only at the
  -- end.
  abbrev Refilled : BufferedInputStream S → BufferedInputStream S → Type 0
  Refilled b b' =
      (unread rest b' ≡ rest b.delegatee)
      × (b'.window ≡ [] → rest b.delegatee ≡ [])
      × IsOpen Valid b'

  filled-Refilled :
      (r : ReadResult × S) (b : BufferedInputStream S)
      → 0 < b.capacity
      → IsRead rest b.capacity b.delegatee r
      → Valid r.1
      → Refilled b (filled i r b)
  unfolding filled
  filled-Refilled (chunk bytes, s) b h (e, k, n) v = (sym e, n h, (h, v))
  filled-Refilled (failure, s) b h bad v = absurd bad

  fill_buffer-Refilled :
      (b : BufferedInputStream S) → IsOpen Valid b → Refilled b (fill_buffer i b).1
  unfolding fill_buffer
  fill_buffer-Refilled b (h, v) =
      filled-Refilled _ b h (law.read-IsRead b.capacity b.delegatee v)
        (law.read-Valid b.capacity b.delegatee v)

  -- One byte read, or the end.
  abbrev pub TakesFirst : BufferedInputStream S → Option ℕ × BufferedInputStream S → Type 0
  TakesFirst b r =
      (r.0 ≡ head? (unread rest b)) × (unread rest r.1 ≡ tail (unread rest b)) × IsOpen Valid r.1

  abbrev pub ShowsFirst : BufferedInputStream S → Option ℕ × BufferedInputStream S → Type 0
  ShowsFirst b r =
      (r.0 ≡ head? (unread rest b)) × (unread rest r.1 ≡ unread rest b) × IsOpen Valid r.1

  unread-window :
      (b : BufferedInputStream S) {w : List ℕ}
      → b.window ≡ w
      → unread rest b ≡ w ++ rest b.delegatee
  unread-window b e = ap (λ t. t ++ rest b.delegatee) e

  -- The end of the stream, seen through a window that stays empty.
  at_end :
      (b b' : BufferedInputStream S)
      → b.window ≡ []
      → b'.window ≡ []
      → Refilled b b'
      → (unread rest b ≡ []) × (unread rest b' ≡ [])
  at_end b b' e e' (u, n, o) = (unread-window b e ∙ n e', u ∙ n e')

  -- The next byte, seen through a window that has been filled.
  next_byte :
      (c : ℕ) (w : List ℕ) (b b' : BufferedInputStream S)
      → b.window ≡ []
      → b'.window ≡ c ∷ w
      → Refilled b b'
      → unread rest b ≡ c ∷ (w ++ rest b'.delegatee)
  next_byte c w b b' e e' (u, n, o) = unread-window b e ∙ sym u ∙ unread-window b' e'

  take-Refilled :
      (w : List ℕ) (b b' : BufferedInputStream S)
      → b.window ≡ []
      → b'.window ≡ w
      → Refilled b b'
      → TakesFirst b (take_first i w b')
  unfolding take_first
  take-Refilled [] b b' e e' r =
      let (p, q) = at_end b b' e e' r in (sym (ap head? p), q ∙ sym (ap tail p), r.2)
  take-Refilled (c ∷ w) b b' e e' r =
      let p = next_byte c w b b' e e' r in (sym (ap head? p), sym (ap tail p), r.2)

  show-Refilled :
      (w : List ℕ) (b b' : BufferedInputStream S)
      → b.window ≡ []
      → b'.window ≡ w
      → Refilled b b'
      → ShowsFirst b (show_first i w b')
  unfolding show_first
  show-Refilled [] b b' e e' r =
      let (p, q) = at_end b b' e e' r in (sym (ap head? p), q ∙ sym p, r.2)
  show-Refilled (c ∷ w) b b' e e' r =
      let p = next_byte c w b b' e e' r in (sym (ap head? p), unread-window b' e' ∙ sym p, r.2)

  read_from-TakesFirst :
      (w : List ℕ) (b : BufferedInputStream S)
      → b.window ≡ w
      → IsOpen Valid b
      → TakesFirst b (read_from i w b)
  unfolding read_from
  read_from-TakesFirst [] b e o =
      take-Refilled _ b (fill_buffer i b).1 e refl (fill_buffer-Refilled b o)
  read_from-TakesFirst (c ∷ w) b e o =
      let p = unread-window b e in (sym (ap head? p), sym (ap tail p), o)

  peek_from-ShowsFirst :
      (w : List ℕ) (b : BufferedInputStream S)
      → b.window ≡ w
      → IsOpen Valid b
      → ShowsFirst b (peek_from i w b)
  unfolding peek_from
  peek_from-ShowsFirst [] b e o =
      show-Refilled _ b (fill_buffer i b).1 e refl (fill_buffer-Refilled b o)
  peek_from-ShowsFirst (c ∷ w) b e o = (sym (ap head? (unread-window b e)), refl, o)

  -- `Read()` returns the next byte of the delegatee's stream and leaves what follows it, or -1
  -- exactly at the end, on any valid stream with a buffer of one byte or more.
  pub read_char-TakesFirst :
      (b : BufferedInputStream S) → IsOpen Valid b → TakesFirst b (read_char i b)
  unfolding read_char
  read_char-TakesFirst b o = read_from-TakesFirst b.window b refl o

  -- `Peek()` returns the byte that `Read()` would, or -1 at the end, and takes nothing.
  pub peek_char-ShowsFirst :
      (b : BufferedInputStream S) → IsOpen Valid b → ShowsFirst b (peek_char i b)
  unfolding peek_char
  peek_char-ShowsFirst b o = peek_from-ShowsFirst b.window b refl o
