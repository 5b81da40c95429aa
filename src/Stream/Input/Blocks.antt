-- ===== src/Stream/Input/Blocks.antt =====
-- `Read(void*, size_t)` of a buffered input stream, by the contract of an input stream.
use cheaproute.Prelude.{
  ℕ, ◌/◌, ◌≤◌, ◌<◌, min, ◌≡◌, refl, sym, ◌∙◌, ap, false, List, [], ◌∷◌, ◌++◌, append_assoc, arith,
  ltb, leb, if_rule, ltb→lt, ltb_false→le, length, take, drop, length-take, take-append-drop,
}
use cheaproute.Stream.{InputStream, ReadResult, chunk, failure, IsRead, Delivers}
use cheaproute.Stream.Input.{
  BufferedInputStream, filled, copy_out, direct, after_fill, read, as_input_stream, unread, IsOpen,
}

empty_of_length : (xs : List ℕ) → length xs ≤ 0 → xs ≡ []
empty_of_length [] h = refl
empty_of_length (x ∷ xs) h = absurd (omega arith)

take_nil : (w : List ℕ) (count : ℕ) → 0 < count → take (min (length w) count) w ≡ [] → w ≡ []
take_nil [] count h e = refl
take_nil (x ∷ w) count h e =
    absurd (omega (arith, length-take (min (length (x ∷ w)) count) (x ∷ w), ap length e))

module _ {S : Type 0} (i : InputStream S) (rest : S → List ℕ) (Valid : S → Type 0)
    (law : Delivers i rest Valid) where
  unread-window :
      (b : BufferedInputStream S) {w : List ℕ}
      → b.window ≡ w
      → unread rest b ≡ w ++ rest b.delegatee
  unread-window b e = ap (λ t. t ++ rest b.delegatee) e

  copy_out-IsRead :
      (count : ℕ) (b : BufferedInputStream S)
      → (b.window ≡ [] → rest b.delegatee ≡ [])
      → IsRead (unread rest) count b (copy_out i count b)
  unfolding copy_out
  copy_out-IsRead count b n = (
    ap (λ t. t ++ rest b.delegatee) (sym (take-append-drop size b.window))
        ∙ append_assoc (take size b.window) (drop size b.window) (rest b.delegatee),
    omega (arith, length-take size b.window),
    λ h e. let z = take_nil b.window count h e in unread-window b z ∙ n z,
  )
    where
      size : ℕ
      size = min (length b.window) count

  IsRead-from :
      (count : ℕ) (b b' : BufferedInputStream S) (r : ReadResult × BufferedInputStream S)
      → unread rest b ≡ unread rest b'
      → IsRead (unread rest) count b' r
      → IsRead (unread rest) count b r
  IsRead-from count b b' (chunk bytes, c) e (p, q, n) = (e ∙ p, q, λ h k. e ∙ n h k)
  IsRead-from count b b' (failure, c) e bad = bad

  after_fill-IsRead :
      (count : ℕ) (r : ReadResult × S) (b : BufferedInputStream S)
      → b.window ≡ []
      → 0 < b.capacity
      → IsRead rest b.capacity b.delegatee r
      → IsRead (unread rest) count b (after_fill i count (r.0, filled i r b))
  unfolding after_fill filled
  after_fill-IsRead count (chunk [], s) b e h (p, q, n) =
      (unread-window b e ∙ p, omega arith, λ _ _. unread-window b e ∙ n h refl)
  after_fill-IsRead count (chunk (c ∷ w), s) b e h (p, q, n) =
      IsRead-from count b (filled i (chunk (c ∷ w), s) b)
        (copy_out i count (filled i (chunk (c ∷ w), s) b)) (unread-window b e ∙ p)
        (copy_out-IsRead count (filled i (chunk (c ∷ w), s) b) (λ z. cc))
  after_fill-IsRead count (failure, s) b e h bad = absurd bad

  direct-IsRead :
      (count : ℕ) (r : ReadResult × S) (b : BufferedInputStream S)
      → b.window ≡ []
      → IsRead rest count b.delegatee r
      → IsRead (unread rest) count b (direct i r b)
  unfolding direct
  direct-IsRead count (chunk bytes, s) b e (p, q, n) = (
    unread-window b e ∙ p ∙ ap (λ t. bytes ++ (t ++ rest s)) (sym e),
    q,
    λ h k. unread-window b e ∙ n h k,
  )
  direct-IsRead count (failure, s) b e bad = bad

  after_fill-IsOpen :
      (count : ℕ) (r : ReadResult × S) (b : BufferedInputStream S)
      → 0 < b.capacity
      → Valid r.1
      → IsOpen Valid (after_fill i count (r.0, filled i r b)).1
  unfolding after_fill filled copy_out
  after_fill-IsOpen count (chunk [], s) b h v = (h, v)
  after_fill-IsOpen count (chunk (c ∷ w), s) b h v = (h, v)
  after_fill-IsOpen count (failure, s) b h v = (h, v)

  window_empty : (b : BufferedInputStream S) → ltb 0 (length b.window) ≡ false → b.window ≡ []
  window_empty b e = empty_of_length b.window (ltb_false→le 0 (length b.window) e)

  read-IsRead :
      (count : ℕ) (b : BufferedInputStream S)
      → IsOpen Valid b
      → IsRead (unread rest) count b (read i count b)
  unfolding read
  read-IsRead count b (h, v) =
      if_rule (IsRead (unread rest) count b) (ltb 0 (length b.window))
        (λ e.
          copy_out-IsRead count b
            (λ z. absurd (omega (arith, ltb→lt 0 (length b.window) e, ap length z))))
        λ e.
          if_rule (IsRead (unread rest) count b) (leb (b.capacity / 2) count)
            (λ _. direct-IsRead count _ b (window_empty b e) (law.read-IsRead count b.delegatee v))
            λ _.
              after_fill-IsRead count (i.read b.capacity b.delegatee) b (window_empty b e) h
                (law.read-IsRead b.capacity b.delegatee v)

  read-IsOpen :
      (count : ℕ) (b : BufferedInputStream S) → IsOpen Valid b → IsOpen Valid (read i count b).1
  unfolding read copy_out direct
  read-IsOpen count b (h, v) =
      if_rule {A = ReadResult × BufferedInputStream S} (λ r. IsOpen Valid r.1)
        (ltb 0 (length b.window)) (λ _. (h, v))
        λ _.
          if_rule {A = ReadResult × BufferedInputStream S} (λ r. IsOpen Valid r.1)
            (leb (b.capacity / 2) count) (λ _. (h, law.read-Valid count b.delegatee v))
            λ _.
              after_fill-IsOpen count (i.read b.capacity b.delegatee) b h
                (law.read-Valid b.capacity b.delegatee v)

  -- A buffered stream over a delegatee that delivers its bytes is such a stream itself: each block
  -- read takes at most the count asked for off the front of what is left, and returns no byte only
  -- at the end or for a count of 0.
  pub buffered-Delivers : Delivers (as_input_stream i) (unread rest) (IsOpen Valid)
  buffered-Delivers = record { read-IsRead = read-IsRead; read-Valid = read-IsOpen }
