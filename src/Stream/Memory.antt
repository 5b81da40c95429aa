-- ===== src/Stream/Memory.antt =====
-- base/stream.h and base/stream.cc: `MemoryInputStream` and `MemoryOutputStream`. The vector of the
-- output stream is a list of the bytes that are allocated; a `memcpy` past its end is `none`.
use cheaproute.Prelude.{
  ℕ, zero, suc, ◌+◌, ◌-◌, ◌*◌, ◌^◌, ◌%◌, ◌≤◌, ◌<◌, min, max, ◌≡◌, refl, sym, ◌∙◌, ap, Option, none,
  some, List, [], ◌∷◌, ◌++◌, append_assoc, arith, ltb, leb, if◌then◌else◌, le→ltb, lt→leb_false,
  le→leb, length, take, drop, replicate, length-append, length-take, length-drop, take-append-drop,
  take-append, drop_all, inl, inr, Bool-cases, ltb→lt, ltb_false→le, drop-add,
}
use cheaproute.Stream.{InputStream, ReadResult, chunk, IsRead, Delivers}

pub record MemoryInputStream : Type 0 where
  pub bytes : List ℕ
  pub pos : ℕ

pub open_memory : List ℕ → MemoryInputStream
open_memory bytes = record { bytes = bytes; pos = 0 }

-- `MemoryInputStream::Read`; the difference is of `size_t`s.
pub read : ℕ → MemoryInputStream → ReadResult × MemoryInputStream
read count m =
    let copy_size = min count ((length m.bytes + 2 ^ 64 - m.pos) % 2 ^ 64) in
    (chunk (take copy_size (drop m.pos m.bytes)), record m { pos = m.pos + copy_size })

-- The position lies within the data, whose size a `size_t` holds.
abbrev pub IsInside : MemoryInputStream → Type 0
IsInside m = (m.pos ≤ length m.bytes) × (length m.bytes < 2 ^ 64)

abbrev pub remaining : MemoryInputStream → List ℕ
remaining m = drop m.pos m.bytes

abbrev pub as_input : InputStream MemoryInputStream
as_input = record { read = read }

-- Within the data the difference does not wrap.
copy_size-lt :
    (count p n : ℕ) → p ≤ n → n < 2 ^ 64 → min count ((n + 2 ^ 64 - p) % 2 ^ 64) ≡ min count (n - p)
copy_size-lt count p n h k = ap (min count) (omega arith)

take_nothing : (n : ℕ) (xs : List ℕ) → 0 < n → take n xs ≡ [] → xs ≡ []
take_nothing n [] h e = refl
take_nothing zero (x ∷ xs) h e = absurd (omega arith)
take_nothing (suc n) (x ∷ xs) h e = cc

read-IsRead :
    (count : ℕ) (m : MemoryInputStream) → IsInside m → IsRead remaining count m (read count m)
unfolding read
read-IsRead count m (h, k) = (
  sym (take-append-drop size (drop m.pos m.bytes))
      ∙ ap (λ t. take size (drop m.pos m.bytes) ++ t) (sym (drop-add m.pos size m.bytes)),
  omega (arith, length-take size (drop m.pos m.bytes)),
  λ c e. elim (Bool-cases (ltb 0 size)) [
    | inl some_room ↦ take_nothing size (drop m.pos m.bytes) (ltb→lt 0 size some_room) e
    | inr no_room ↦
        drop_all m.pos m.bytes (
          omega (arith, ltb_false→le 0 size no_room, copy_size-lt count m.pos (length m.bytes) h k))
  ],
)
  where
    size : ℕ
    size = min count ((length m.bytes + 2 ^ 64 - m.pos) % 2 ^ 64)

read-IsInside : (count : ℕ) (m : MemoryInputStream) → IsInside m → IsInside (read count m).1
unfolding read
read-IsInside count m (h, k) = (omega (arith, copy_size-lt count m.pos (length m.bytes) h k), k)

pub memory-Delivers : Delivers as_input remaining IsInside
memory-Delivers = record { read-IsRead = read-IsRead; read-Valid = read-IsInside }

-- `vector::resize`, whose new elements are 0.
resize : ℕ → List ℕ → List ℕ
resize size xs = take size xs ++ replicate (size - length xs) 0

pub record MemoryOutputStream : Type 0 where
  pub buffer : List ℕ
  pub pos : ℕ

pub fresh : MemoryOutputStream
fresh = record { buffer = replicate 16 0; pos = 0 }

-- `memcpy(&buffer[pos], bytes, length bytes)`.
copy_to : ℕ → List ℕ → List ℕ → Option (List ℕ)
copy_to pos bytes buffer =
    if leb (pos + length bytes) (length buffer)
    then some (take pos buffer ++ (bytes ++ drop (pos + length bytes) buffer))
    else none

grown : ℕ → List ℕ → List ℕ
unfolding resize
grown count buffer =
    if ltb (length buffer) count then resize (max (length buffer * 2) count) buffer else buffer

-- `MemoryOutputStream::Write`
pub write : List ℕ → MemoryOutputStream → Option MemoryOutputStream
write bytes m = elim (copy_to m.pos bytes (grown (length bytes) m.buffer)) [
  | none ↦ none
  | some buffer ↦ some (record { buffer = buffer; pos = m.pos + length bytes })
]

-- The bytes that `ptr()` and `size()` show.
abbrev pub shown : MemoryOutputStream → List ℕ
shown m = take m.pos m.buffer

after_write : List ℕ → MemoryOutputStream → MemoryOutputStream
after_write bytes m = record {
  buffer = take m.pos m.buffer ++ (bytes ++ drop (m.pos + length bytes) m.buffer);
  pos = m.pos + length bytes;
}

grown_same : (count : ℕ) (buffer : List ℕ) → count ≤ length buffer → grown count buffer ≡ buffer
unfolding grown
grown_same count buffer h = rw (le→ltb (length buffer) count h)

write_fits :
    (bytes : List ℕ) (m : MemoryOutputStream)
    → m.pos + length bytes ≤ length m.buffer
    → write bytes m ≡ some (after_write bytes m)
unfolding write copy_to after_write
write_fits bytes m h =
    rw (grown_same (length bytes) m.buffer (omega arith), write)
      (rw (le→leb (m.pos + length bytes) (length m.buffer) h, copy_to))

length-after_write :
    (bytes : List ℕ) (m : MemoryOutputStream)
    → m.pos + length bytes ≤ length m.buffer
    → length (after_write bytes m).buffer ≡ length m.buffer
unfolding after_write
length-after_write bytes m h = omega (
  arith,
  length-append (take m.pos m.buffer) (bytes ++ drop (m.pos + length bytes) m.buffer),
  length-append bytes (drop (m.pos + length bytes) m.buffer),
  length-take m.pos m.buffer,
  length-drop (m.pos + length bytes) m.buffer,
)

-- A write that fits behind the position appends its bytes to what is shown.
pub shown-write :
    (bytes : List ℕ) (m : MemoryOutputStream)
    → m.pos + length bytes ≤ length m.buffer
    → (m' : MemoryOutputStream) × (write bytes m ≡ some m')
      × (shown m' ≡ shown m ++ bytes)
      × (length m'.buffer ≡ length m.buffer)
unfolding after_write
shown-write bytes m h =
    (after_write bytes m, write_fits bytes m h, front, length-after_write bytes m h)
  where
    kept : List ℕ
    kept = take m.pos m.buffer

    front :
        take (m.pos + length bytes) (kept ++ (bytes ++ drop (m.pos + length bytes) m.buffer))
        ≡ kept ++ bytes
    front =
        ap (take (m.pos + length bytes))
          (sym (append_assoc kept bytes (drop (m.pos + length bytes) m.buffer)))
        ∙ take-append (kept ++ bytes) (drop (m.pos + length bytes) m.buffer) (m.pos + length bytes)
            (omega (arith, length-append kept bytes, length-take m.pos m.buffer))

-- The test for room leaves the position out: a block that the vector could hold from its start,
-- and not behind the position, is written past the end.
pub write_overflows :
    (bytes : List ℕ) (m : MemoryOutputStream)
    → length bytes ≤ length m.buffer
    → length m.buffer < m.pos + length bytes
    → write bytes m ≡ none
unfolding write copy_to
write_overflows bytes m h over =
    rw (grown_same (length bytes) m.buffer h, write)
      (rw (lt→leb_false (m.pos + length bytes) (length m.buffer) over, copy_to))

-- From a new stream, two blocks of at most 16 bytes each, more than 16 together, are written past
-- the end of the vector.
pub write-write_overflows :
    (first second : List ℕ)
    → length first ≤ 16
    → length second ≤ 16
    → 16 < length first + length second
    → (m : MemoryOutputStream) × (write first fresh ≡ some m) × (write second m ≡ none)
unfolding fresh
write-write_overflows first second h k over = (
  after_write first fresh,
  write_fits first fresh (omega arith),
  write_overflows second (after_write first fresh)
      (omega (arith, length-after_write first fresh (omega arith)))
      (omega (arith, length-after_write first fresh (omega arith), pos_after)),
)
  where
    pos_after : (after_write first fresh).pos ≡ 0 + length first
    pos_after = unfold after_write in refl
