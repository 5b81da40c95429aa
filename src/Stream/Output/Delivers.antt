-- ===== src/Stream/Output/Delivers.antt =====
-- base/stream.cc: what is written to a `BufferedOutputStream` arrives, in order.
use cheaproute.Prelude.{
  ap, ℕ, zero, suc, ◌+◌, ◌-◌, ◌/◌, ◌≤◌, ◌<◌, min, ◌≡◌, refl, sym, subst, ◌∙◌, Option, some, List,
  [], ◌∷◌, ◌++◌, append-nil, append_assoc, arith, ltb, leb, ◌==◌, length, take, drop, if_rule,
  ltb_false→le, ==_false→ne, length-append, length-take, length-drop, take-append-drop,
}
use cheaproute.Stream.{OutputStream, Appends}
use cheaproute.Stream.Output.{
  BufferedOutputStream, WriteCall, write_char, write_block, flushes, init, flush, flush_if_full,
  put, write_loop, write_through, write, step, run, payload, payloads, HasRoom,
}

empty_of_length : (xs : List ℕ) → length xs ≤ 0 → xs ≡ []
empty_of_length [] h = refl
empty_of_length (x ∷ xs) h = absurd (omega arith)

module _ {S : Type 0} (o : OutputStream S) (contents : S → List ℕ) (law : Appends o contents) where
  -- What has been written: what the delegatee has, and what waits in the buffer.
  abbrev pub written : BufferedOutputStream S → List ℕ
  written b = contents b.delegatee ++ b.buffer

  -- The outcome of an operation that writes `bytes`.
  abbrev Wrote : List ℕ → BufferedOutputStream S → BufferedOutputStream S → Type 0
  Wrote bytes b b' = HasRoom b' × (written b' ≡ written b ++ bytes) × (b'.capacity ≡ b.capacity)

  written-flush : (b : BufferedOutputStream S) → written (flush o b) ≡ written b
  unfolding flush
  written-flush b =
      if_rule (λ r. written r ≡ written b) (ltb 0 (length b.buffer))
        (λ _. append-nil _ ∙ law.contents-write b.buffer b.delegatee) λ _. refl

  -- After a flush nothing waits in the buffer.
  buffer-flush : (b : BufferedOutputStream S) → (flush o b).buffer ≡ []
  unfolding flush
  buffer-flush b =
      if_rule {A = BufferedOutputStream S} (λ r. r.buffer ≡ []) (ltb 0 (length b.buffer))
        (λ _. refl) λ e. empty_of_length b.buffer (ltb_false→le _ _ e)

  delivered-flush : (b : BufferedOutputStream S) → contents (flush o b).delegatee ≡ written b
  delivered-flush b =
      sym (append-nil _)
      ∙ ap (λ t. contents (flush o b).delegatee ++ t) (sym (buffer-flush b))
      ∙ written-flush b

  capacity-flush : (b : BufferedOutputStream S) → (flush o b).capacity ≡ b.capacity
  unfolding flush
  capacity-flush b =
      if_rule {A = BufferedOutputStream S} (λ r. r.capacity ≡ b.capacity) (ltb 0 (length b.buffer))
        (λ _. refl) (λ _. refl)

  flush-Wrote : (b : BufferedOutputStream S) → 0 < b.capacity → Wrote [] b (flush o b)
  flush-Wrote b h = (
    rw (buffer-flush b, capacity-flush b) h,
    written-flush b ∙ sym (append-nil _),
    capacity-flush b,
  )

  flush_if_full-Wrote :
      (b : BufferedOutputStream S)
      → 0 < b.capacity
      → length b.buffer ≤ b.capacity
      → Wrote [] b (flush_if_full o b)
  unfolding flush_if_full
  flush_if_full-Wrote b h k =
      if_rule (Wrote [] b) (length b.buffer == b.capacity) (λ _. flush-Wrote b h)
        λ e. (omega (arith, ==_false→ne _ _ e), sym (append-nil _), refl)

  -- One write after another.
  Wrote-trans :
      (xs ys : List ℕ) (a b c : BufferedOutputStream S)
      → Wrote xs a b
      → Wrote ys b c
      → Wrote (xs ++ ys) a c
  Wrote-trans xs ys a b c (r, w, k) (r', w', k') =
      (r', w' ∙ ap (λ t. t ++ ys) w ∙ append_assoc (written a) xs ys, k' ∙ k)

  -- Bytes that fit go to the buffer, which is flushed when they fill it.
  fill-Wrote :
      (bytes : List ℕ) (b : BufferedOutputStream S)
      → HasRoom b
      → length b.buffer + length bytes ≤ b.capacity
      → Wrote bytes b (flush_if_full o (record b { buffer = b.buffer ++ bytes }))
  fill-Wrote bytes b h k =
      let (r, w, c) =
        flush_if_full-Wrote (record b { buffer = b.buffer ++ bytes }) (omega arith)
          (omega (arith, length-append b.buffer bytes)) in
      (r, w ∙ append-nil _ ∙ sym (append_assoc (contents b.delegatee) b.buffer bytes), c)

  put-Wrote : (ch : ℕ) (b : BufferedOutputStream S) → HasRoom b → Wrote (ch ∷ []) b (put o ch b)
  unfolding put
  put-Wrote ch b h = fill-Wrote (ch ∷ []) b h (omega arith)

  -- An operation that returns, and has written `bytes`.
  abbrev Writes : List ℕ → BufferedOutputStream S → Option (BufferedOutputStream S) → Type 0
  Writes bytes b r = (b' : BufferedOutputStream S) × (r ≡ some b') × Wrote bytes b b'

  write_loop-Writes :
      (fuel : ℕ) (src : List ℕ) (b : BufferedOutputStream S)
      → length src ≤ fuel
      → HasRoom b
      → Writes src b (write_loop o fuel src b)
  unfolding write_loop
  write_loop-Writes fuel [] b h k = (b, refl, (k, sym (append-nil _), refl))
  write_loop-Writes zero (x ∷ src) b h k = absurd (omega arith)
  write_loop-Writes (suc fuel) (x ∷ src) b h k =
      let n = min (length (x ∷ src)) (b.capacity - length b.buffer) in
      let first = take n (x ∷ src) in
      let later = drop n (x ∷ src) in
      let b₁ = flush_if_full o (record b { buffer = b.buffer ++ first }) in
      let w₁ : Wrote first b b₁ = fill-Wrote first b k (omega (arith, length-take n (x ∷ src))) in
      let (b₂, e, w₂) =
        write_loop-Writes fuel later b₁ (omega (arith, length-drop n (x ∷ src))) w₁.0 in
      (
        b₂,
        e,
        subst (λ t. Wrote t b b₂) (take-append-drop n (x ∷ src))
            (Wrote-trans first later b b₁ b₂ w₁ w₂),
      )

  -- `Write` of a block returns, whatever its size, and its bytes follow what was written.
  write-Writes :
      (src : List ℕ) (b : BufferedOutputStream S) → HasRoom b → Writes src b (write o src b)
  unfolding write write_through
  write-Writes src b h =
      if_rule (Writes src b) (leb (b.capacity / 2) (length src))
        (λ _. (
          record f { delegatee = o.write src f.delegatee },
          refl,
          (
            (flush-Wrote b (omega arith)).0,
            ap (λ t. contents (o.write src f.delegatee) ++ t) (buffer-flush b)
                ∙ append-nil _
                ∙ law.contents-write src f.delegatee
                ∙ ap (λ t. t ++ src) (delivered-flush b),
            capacity-flush b,
          ),
        ))
        λ _. write_loop-Writes (length src) src b (omega arith) h
    where
      f : BufferedOutputStream S
      f = flush o b

  step-Writes :
      (c : WriteCall) (b : BufferedOutputStream S) → HasRoom b → Writes (payload c) b (step o c b)
  unfolding step
  step-Writes (write_char ch) b h = (put o ch b, refl, put-Wrote ch b h)
  step-Writes (write_block src) b h = write-Writes src b h
  step-Writes flushes b h = (flush o b, refl, flush-Wrote b (omega arith))

  run-Writes :
      (cs : List WriteCall) (b : BufferedOutputStream S)
      → HasRoom b
      → Writes (payloads cs) b (run o cs b)
  unfolding run
  run-Writes [] b h = (b, refl, (h, sym (append-nil _), refl))
  run-Writes (c ∷ cs) b h =
      let (b₁, e₁, w₁) = step-Writes c b h in
      let (b₂, e₂, w₂) = run-Writes cs b₁ w₁.0 in
      (b₂, rw (e₁, run) e₂, Wrote-trans (payload c) (payloads cs) b b₁ b₂ w₁ w₂)

  -- Any calls of `Write` and `Flush` on a new stream with a buffer of one byte or more return, and
  -- after a last `Flush` the delegatee has received the bytes of all the calls, in order, behind
  -- what it had, with nothing left in the buffer.
  pub run-delivers :
      (s : S) (size : ℕ) (cs : List WriteCall)
      → 0 < size
      → (b : BufferedOutputStream S) × (run o cs (init o s size) ≡ some b)
        × (contents (flush o b).delegatee ≡ contents s ++ payloads cs)
        × ((flush o b).buffer ≡ [])
  unfolding init
  run-delivers s size cs h =
      let (b, e, (r, w, c)) = run-Writes cs (init o s size) h in
      (
        b,
        e,
        delivered-flush b ∙ w ∙ ap (λ t. t ++ payloads cs) (append-nil (contents s)),
        buffer-flush b,
      )
