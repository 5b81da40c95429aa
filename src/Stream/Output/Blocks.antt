-- ===== src/Stream/Output/Blocks.antt =====
-- base/stream.cc: the blocks that a `BufferedOutputStream` of 4096 bytes passes on.
use cheaproute.Prelude.{
  ℕ, zero, suc, ◌+◌, ◌-◌, ◌/◌, ◌≤◌, ◌<◌, min, ◌≡◌, refl, sym, ◌∙◌, ap, ap₂, subst, some, List, [],
  ◌∷◌, ◌++◌, append-nil, append_assoc, arith, ltb, leb, ◌==◌, ==_iff, ==_false→ne, ltb_false→le,
  ltb→lt, leb→le, length, length-append, length-take, length-drop, take, drop, take-append,
  drop-append, take-append-drop, take_all, if_rule,
}
use cheaproute.Stream.{OutputStream}
use cheaproute.Stream.Output.{
  BufferedOutputStream, WriteCall, write_char, write_block, flushes, init, flush, flush_if_full,
  put, write_loop, write, step, run, payload, payloads,
}

-- The blocks that the `BufferedOutputStream` passes on of what is printed up to a `Flush`, from an empty
-- buffer of 4096 bytes: the printer writes characters and blocks shorter than half of it, so it is
-- passed on when it is full, and what is left at the end. As many rounds as bytes are enough.
unfoldable pub cut_loop : ℕ → List ℕ → List (List ℕ)
cut_loop fuel [] = []
cut_loop zero (ch ∷ text) = []
cut_loop (suc fuel) (ch ∷ text) = take 4096 (ch ∷ text) ∷ cut_loop fuel (drop 4096 (ch ∷ text))

unfoldable pub cut : List ℕ → List (List ℕ)
unfolding cut_loop
cut text = cut_loop (length text) text

-- A stream that keeps the blocks apart.
abbrev pub recorder : OutputStream (List (List ℕ))
recorder = record { write = λ block blocks. blocks ++ block ∷ []; flush = λ blocks. blocks }

-- The calls of the printer: characters, and blocks shorter than half of the buffer.
abbrev pub IsShort : WriteCall → Type 0
IsShort (write_char ch) = Unit
IsShort (write_block src) = length src < 2048
IsShort flushes = ⊥

abbrev pub AreShort : List WriteCall → Type 0
AreShort [] = Unit
AreShort (c ∷ cs) = IsShort c × AreShort cs

cut_loop-enough :
    (f g : ℕ) (text : List ℕ)
    → length text ≤ f
    → length text ≤ g
    → cut_loop f text ≡ cut_loop g text
unfolding cut_loop
cut_loop-enough f g [] h k = refl
cut_loop-enough zero g (ch ∷ text) h k = absurd (omega arith)
cut_loop-enough (suc f) zero (ch ∷ text) h k = absurd (omega arith)
cut_loop-enough (suc f) (suc g) (ch ∷ text) h k =
    ap (λ t. take 4096 (ch ∷ text) ∷ t)
      (cut_loop-enough f g (drop 4096 (ch ∷ text)) (omega (arith, length-drop 4096 (ch ∷ text)))
        (omega (arith, length-drop 4096 (ch ∷ text))))

cut-full : (block more : List ℕ) → length block ≡ 4096 → cut (block ++ more) ≡ block ∷ cut more
unfolding cut cut_loop
cut-full [] more h = absurd (omega arith)
cut-full (ch ∷ block) more h =
    ap₂ (λ a b. a ∷ b) (take-append (ch ∷ block) more 4096 h)
      (ap (cut_loop (length (block ++ more))) (drop-append (ch ∷ block) more 4096 h)
        ∙ cut_loop-enough (length (block ++ more)) (length more) more
            (omega (arith, length-append block more)) (omega arith))

cut-nothing : (text : List ℕ) → length text ≤ 0 → cut text ≡ []
unfolding cut cut_loop
cut-nothing [] h = refl
cut-nothing (ch ∷ text) h = absurd (omega arith)

cut-rest : (text : List ℕ) → 0 < length text → length text ≤ 4096 → cut text ≡ text ∷ []
unfolding cut cut_loop
cut-rest [] h k = absurd (omega arith)
cut-rest (ch ∷ text) h k =
    ap₂ (λ a b. a ∷ b) (take_all 4096 (ch ∷ text) k)
      (ap (cut_loop (length text))
        (nothing (drop 4096 (ch ∷ text)) (omega (arith, length-drop 4096 (ch ∷ text)))))
  where
    nothing : (t : List ℕ) → length t ≤ 0 → t ≡ []
    nothing [] l = refl
    nothing (x ∷ t) l = absurd (omega arith)

-- The stream has passed on the blocks of `text`, but for what waits in the buffer.
record Passes (text : List ℕ) (b : BufferedOutputStream (List (List ℕ))) : Type 0 where
  capacity : b.capacity ≡ 4096
  room : length b.buffer < 4096
  blocks : (more : List ℕ) → cut (text ++ more) ≡ b.delegatee ++ cut (b.buffer ++ more)

more_buffered :
    (text piece : List ℕ) (b : BufferedOutputStream (List (List ℕ)))
    → Passes text b
    → (more : List ℕ)
    → cut ((text ++ piece) ++ more) ≡ b.delegatee ++ cut ((b.buffer ++ piece) ++ more)
more_buffered text piece b p more =
    ap cut (append_assoc text piece more)
    ∙ p.blocks (piece ++ more)
    ∙ ap (λ t. b.delegatee ++ cut t) (sym (append_assoc b.buffer piece more))

fill-Passes :
    (text piece : List ℕ) (b : BufferedOutputStream (List (List ℕ)))
    → length b.buffer + length piece ≤ 4096
    → Passes text b
    → Passes (text ++ piece) (flush_if_full recorder (record b { buffer = b.buffer ++ piece }))
unfolding flush_if_full flush
fill-Passes text piece b small p =
    if_rule (Passes (text ++ piece)) (length (b.buffer ++ piece) == b.capacity)
      (λ e. full ((==_iff _ _).0 e ∙ p.capacity))
      (λ e. record {
        capacity = p.capacity;
        room = omega (arith, ==_false→ne _ _ e, length-append b.buffer piece, p.capacity);
        blocks = more_buffered text piece b p;
      })
  where
    full :
        length (b.buffer ++ piece) ≡ 4096
        → Passes (text ++ piece) (flush recorder (record b { buffer = b.buffer ++ piece }))
    full e =
        if_rule (Passes (text ++ piece)) (ltb 0 (length (b.buffer ++ piece)))
          (λ _. record {
            capacity = p.capacity;
            room = omega arith;
            blocks = λ more.
                more_buffered text piece b p more
                ∙ ap (λ t. b.delegatee ++ t) (cut-full (b.buffer ++ piece) more e)
                ∙ sym (append_assoc b.delegatee ((b.buffer ++ piece) ∷ []) (cut more));
          })
          (λ z. absurd (omega (arith, ltb_false→le 0 (length (b.buffer ++ piece)) z)))

loop-Passes :
    (fuel : ℕ) (src text : List ℕ) (b : BufferedOutputStream (List (List ℕ)))
    → length src ≤ fuel
    → Passes text b
    → (b' : BufferedOutputStream (List (List ℕ))) × (write_loop recorder fuel src b ≡ some b')
      × Passes (text ++ src) b'
unfolding write_loop
loop-Passes fuel [] text b h p = (b, refl, subst (λ t. Passes t b) (sym (append-nil text)) p)
loop-Passes zero (x ∷ src) text b h p = absurd (omega arith)
loop-Passes (suc fuel) (x ∷ src) text b h p =
    let n = min (length (x ∷ src)) (b.capacity - length b.buffer) in
    let first = take n (x ∷ src) in
    let q =
      fill-Passes text first b (omega (arith, length-take n (x ∷ src), p.capacity, p.room)) p in
    let (b', e, r) =
      loop-Passes fuel (drop n (x ∷ src)) (text ++ first)
        (flush_if_full recorder (record b { buffer = b.buffer ++ first }))
        (omega (arith, length-drop n (x ∷ src), p.capacity, p.room)) q in
    (
      b',
      e,
      subst (λ t. Passes t b')
          (append_assoc text first (drop n (x ∷ src))
            ∙ ap (λ t. text ++ t) (take-append-drop n (x ∷ src)))
          r,
    )

step-Passes :
    (c : WriteCall) (text : List ℕ) (b : BufferedOutputStream (List (List ℕ)))
    → IsShort c
    → Passes text b
    → (b' : BufferedOutputStream (List (List ℕ))) × (step recorder c b ≡ some b')
      × Passes (text ++ payload c) b'
unfolding step put write
step-Passes (write_char ch) text b s p =
    (_, refl, fill-Passes text (ch ∷ []) b (omega (arith, p.room)) p)
step-Passes (write_block src) text b s p =
    if_rule
      (λ r. (b' : BufferedOutputStream (List (List ℕ))) × (r ≡ some b') × Passes (text ++ src) b')
      (leb (b.capacity / 2) (length src))
      (λ e. absurd (omega (arith, leb→le (b.capacity / 2) (length src) e, s, p.capacity)))
      (λ _. loop-Passes (length src) src text b (omega arith) p)
step-Passes flushes text b s p = absurd s

run-Passes :
    (cs : List WriteCall) (text : List ℕ) (b : BufferedOutputStream (List (List ℕ)))
    → AreShort cs
    → Passes text b
    → (b' : BufferedOutputStream (List (List ℕ))) × (run recorder cs b ≡ some b')
      × Passes (text ++ payloads cs) b'
unfolding run
run-Passes [] text b s p = (b, refl, subst (λ t. Passes t b) (sym (append-nil text)) p)
run-Passes (c ∷ cs) text b (s, ss) p =
    let (b₁, e₁, p₁) = step-Passes c text b s p in
    let (b₂, e₂, p₂) = run-Passes cs (text ++ payload c) b₁ ss p₁ in
    (b₂, rw (e₁, run) e₂, subst (λ t. Passes t b₂) (append_assoc text (payload c) (payloads cs)) p₂)

flush-Passes :
    (text : List ℕ) (b : BufferedOutputStream (List (List ℕ)))
    → Passes text b
    → (flush recorder b).delegatee ≡ cut text
unfolding flush
flush-Passes text b p =
    if_rule {A = BufferedOutputStream (List (List ℕ))} (λ r. r.delegatee ≡ cut text)
      (ltb 0 (length b.buffer))
      (λ e.
        ap (λ t. b.delegatee ++ t) (sym (cut-rest b.buffer (ltb→lt _ _ e) (omega (arith, p.room))))
        ∙ same)
      (λ e.
        sym (append-nil b.delegatee)
        ∙ ap (λ t. b.delegatee ++ t) (sym (cut-nothing b.buffer (ltb_false→le _ _ e)))
        ∙ same)
  where
    same : b.delegatee ++ cut b.buffer ≡ cut text
    same =
        ap (λ t. b.delegatee ++ cut t) (sym (append-nil b.buffer))
        ∙ sym (p.blocks [])
        ∙ ap cut (append-nil text)

-- Any characters and blocks shorter than half of the buffer that are written to a new
-- `BufferedOutputStream` with a buffer of 4096 bytes, and a `Flush`, are passed on as the blocks that
-- `cut` makes of all their bytes, in order.
pub run-cut :
    (cs : List WriteCall)
    → AreShort cs
    → (b : BufferedOutputStream (List (List ℕ))) × (run recorder cs (init recorder [] 4096)
        ≡ some b)
      × ((flush recorder b).delegatee ≡ cut (payloads cs))
unfolding init
run-cut cs s =
    let (b, e, p) =
      run-Passes cs [] (init recorder [] 4096) s
        (record { capacity = refl; room = omega arith; blocks = λ more. refl }) in
    (b, e, flush-Passes (payloads cs) b p)
