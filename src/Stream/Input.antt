-- ===== src/Stream/Input.antt =====
-- base/stream.h and base/stream.cc: `BufferedInputStream`, over any input stream.
pub mod Chars
pub mod Blocks
use cheaproute.Prelude.{
  ℕ, zero, suc, ◌+◌, ◌-◌, ◌/◌, ◌≤◌, ◌<◌, min, ◌≡◌, refl, sym, ◌∙◌, ap, subst, Bool, true, false,
  Option, none, some, List, [], ◌∷◌, ◌++◌, append-nil, append_assoc, arith, ltb, leb, if◌then◌else◌,
  if_rule, ltb→lt, ltb_false→le, length, take, drop, length-append, length-take, length-drop,
  take-append-drop,
}
use cheaproute.Stream.{InputStream, ReadResult, chunk, failure, IsRead, Delivers}

-- `window` holds the bytes from `pos_` up to `end_`.
pub record BufferedInputStream (S : Type 0) : Type 0 where
  pub delegatee : S
  pub window : List ℕ
  pub capacity : ℕ

module _ {S : Type 0} (i : InputStream S) where
  pub init : S → ℕ → BufferedInputStream S
  init delegatee size = record { delegatee = delegatee; window = []; capacity = size }

  -- The window after `delegatee_->Read`; a negative count leaves it empty.
  filled : ReadResult × S → BufferedInputStream S → BufferedInputStream S
  filled (chunk bytes, s) b = record b { delegatee = s; window = bytes }
  filled (failure, s) b = record b { delegatee = s; window = [] }

  -- `FillBuffer`, with the count that it returns.
  pub fill_buffer : BufferedInputStream S → ReadResult × BufferedInputStream S
  unfolding filled
  fill_buffer b = let r = i.read b.capacity b.delegatee in (r.0, filled r b)

  -- `*(pos_++)` and `*pos_`, with `none` for the -1 at the end of the stream.
  take_first : List ℕ → BufferedInputStream S → Option ℕ × BufferedInputStream S
  take_first [] b = (none, b)
  take_first (c ∷ rest) b = (some c, record b { window = rest })

  show_first : List ℕ → BufferedInputStream S → Option ℕ × BufferedInputStream S
  show_first [] b = (none, b)
  show_first (c ∷ rest) b = (some c, b)

  -- `Read()`; its slow path fills the buffer and tests the count, which is that of the window.
  read_from : List ℕ → BufferedInputStream S → Option ℕ × BufferedInputStream S
  unfolding take_first fill_buffer
  read_from [] b = let filled_b = (fill_buffer b).1 in take_first filled_b.window filled_b
  read_from (c ∷ rest) b = take_first (c ∷ rest) b

  pub read_char : BufferedInputStream S → Option ℕ × BufferedInputStream S
  unfolding read_from
  read_char b = read_from b.window b

  -- `Peek()`
  peek_from : List ℕ → BufferedInputStream S → Option ℕ × BufferedInputStream S
  unfolding show_first fill_buffer
  peek_from [] b = let filled_b = (fill_buffer b).1 in show_first filled_b.window filled_b
  peek_from (c ∷ rest) b = show_first (c ∷ rest) b

  pub peek_char : BufferedInputStream S → Option ℕ × BufferedInputStream S
  unfolding peek_from
  peek_char b = peek_from b.window b

  -- Up to `count` bytes off the window.
  copy_out : ℕ → BufferedInputStream S → ReadResult × BufferedInputStream S
  copy_out count b =
      let size = min (length b.window) count in
      (chunk (take size b.window), record b { window = drop size b.window })

  direct : ReadResult × S → BufferedInputStream S → ReadResult × BufferedInputStream S
  direct (r, s) b = (r, record b { delegatee = s })

  -- What `Read` returns after `FillBuffer`: bytes, or the count that is not positive.
  after_fill : ℕ → ReadResult × BufferedInputStream S → ReadResult × BufferedInputStream S
  unfolding copy_out
  after_fill count (chunk [], b) = (chunk [], b)
  after_fill count (chunk (c ∷ rest), b) = copy_out count b
  after_fill count (failure, b) = (failure, b)

  -- `Read(void*, size_t)`
  pub read : ℕ → BufferedInputStream S → ReadResult × BufferedInputStream S
  unfolding copy_out direct after_fill fill_buffer
  read count b =
      if ltb 0 (length b.window)
      then copy_out count b
      else if leb (b.capacity / 2) count
      then direct (i.read count b.delegatee) b
      else after_fill count (fill_buffer b)

  abbrev pub as_input_stream : InputStream (BufferedInputStream S)
  as_input_stream = record { read = read }

abbrev pub head? : List ℕ → Option ℕ
head? [] = none
head? (x ∷ xs) = some x

abbrev pub tail : List ℕ → List ℕ
tail [] = []
tail (x ∷ xs) = xs

-- What is still to be read, where `rest` is what the delegatee has left.
abbrev pub unread : {S : Type 0} → (S → List ℕ) → BufferedInputStream S → List ℕ
unread rest b = b.window ++ rest b.delegatee

-- The buffer has a size, and the delegatee is valid.
abbrev pub IsOpen : {S : Type 0} → (S → Type 0) → BufferedInputStream S → Type 0
IsOpen Valid b = (0 < b.capacity) × Valid b.delegatee
