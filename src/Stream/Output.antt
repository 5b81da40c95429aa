-- ===== src/Stream/Output.antt =====
-- base/stream.h and base/stream.cc: `BufferedOutputStream`, over any output stream.
pub mod Delivers
pub mod Blocks
use cheaproute.Prelude.{
  ap, ℕ, zero, suc, ◌+◌, ◌-◌, ◌/◌, ◌≤◌, ◌<◌, min, ◌≡◌, refl, sym, subst, ◌∙◌, Option, none, some,
  List, [], ◌∷◌, ◌++◌, append-nil, append_assoc, arith, ltb, leb, ◌==◌, if◌then◌else◌, length, take,
  drop, if_rule, ltb_false→le, ==_false→ne, length-append, length-take, length-drop,
  take-append-drop,
}
use cheaproute.Stream.{OutputStream, Appends}

-- `buffer` holds the bytes from the start of the vector up to `pos_`.
pub record BufferedOutputStream (S : Type 0) : Type 0 where
  pub delegatee : S
  pub buffer : List ℕ
  pub capacity : ℕ

-- The calls that a user makes.
pub data WriteCall : Type 0 where
  write_char : ℕ → WriteCall
  write_block : List ℕ → WriteCall
  flushes : WriteCall

module _ {S : Type 0} (o : OutputStream S) where
  pub init : S → ℕ → BufferedOutputStream S
  init delegatee size = record { delegatee = delegatee; buffer = []; capacity = size }

  pub flush : BufferedOutputStream S → BufferedOutputStream S
  flush b =
      if ltb 0 (length b.buffer)
      then record b { delegatee = o.write b.buffer b.delegatee; buffer = [] }
      else b

  flush_if_full : BufferedOutputStream S → BufferedOutputStream S
  unfolding flush
  flush_if_full b = if length b.buffer == b.capacity then flush b else b

  -- `Write(char)`
  pub put : ℕ → BufferedOutputStream S → BufferedOutputStream S
  unfolding flush_if_full
  put ch b = flush_if_full (record b { buffer = b.buffer ++ ch ∷ [] })

  -- The loop of `Write(const void*, size_t)`; `none` means that the fuel ran out.
  write_loop : ℕ → List ℕ → BufferedOutputStream S → Option (BufferedOutputStream S)
  write_loop fuel [] b = some b
  write_loop zero (x ∷ src) b = none
  write_loop (suc fuel) (x ∷ src) b =
      let write_size = min (length (x ∷ src)) (b.capacity - length b.buffer) in
      write_loop fuel (drop write_size (x ∷ src))
        (flush_if_full (record b { buffer = b.buffer ++ take write_size (x ∷ src) }))

  write_through : List ℕ → BufferedOutputStream S → BufferedOutputStream S
  unfolding flush
  write_through src b = let f = flush b in record f { delegatee = o.write src f.delegatee }

  -- Every round copies a byte at least, so `length src` rounds are enough.
  pub write : List ℕ → BufferedOutputStream S → Option (BufferedOutputStream S)
  unfolding write_through
  write src b =
      if leb (b.capacity / 2) (length src)
      then some (write_through src b)
      else write_loop (length src) src b

  pub step : WriteCall → BufferedOutputStream S → Option (BufferedOutputStream S)
  step (write_char ch) b = some (put ch b)
  step (write_block src) b = write src b
  step flushes b = some (flush b)

  pub run : List WriteCall → BufferedOutputStream S → Option (BufferedOutputStream S)
  run [] b = some b
  run (c ∷ cs) b = elim (step c b) [ none ↦ none | some b' ↦ run cs b' ]

-- The bytes of a call.
abbrev pub payload : WriteCall → List ℕ
payload (write_char ch) = ch ∷ []
payload (write_block src) = src
payload flushes = []

abbrev pub payloads : List WriteCall → List ℕ
payloads [] = []
payloads (c ∷ cs) = payload c ++ payloads cs

-- There is room in the buffer for another byte.
abbrev pub HasRoom : {S : Type 0} → BufferedOutputStream S → Type 0
HasRoom b = length b.buffer < b.capacity
