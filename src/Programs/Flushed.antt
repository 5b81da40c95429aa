-- ===== src/Programs/Flushed.antt =====
-- main.cc: what STDOUT_FILENO receives of the log of a packet, through the streams of base/stream.cc.
use cheaproute.Prelude.{
  ℕ, zero, suc, ◌+◌, ◌≤◌, ◌≡◌, refl, sym, ◌∙◌, ap, List, [], ◌∷◌, ◌++◌, append-nil, append_assoc,
  arith, Option, none, some, length, take, drop, take-append-drop, length-drop, if_rule, ◌==◌, ltb,
  ltb_false→le, subst, ap₂, ==_false→ne, false,
}
use cheaproute.Stream.File.{Outcome, returned, aborted, waiting, write, write_loop, write_whole}
use cheaproute.Programs.Running.{runs, and_then}
use cheaproute.Programs.Router.{Router, Stdout, passed_on, pass_on}
use cheaproute.Stream.Output.Blocks.{cut_loop, cut}

abbrev pub IsReturned : Outcome → Type 0
IsReturned (returned bytes) = Unit
IsReturned (aborted bytes) = ⊥
IsReturned (waiting bytes) = ⊥

-- Every call of `FileOutputStream::Write` on STDOUT_FILENO returns; short writes are not excluded.
abbrev pub Completes : Stdout → Type 0
Completes stdout = (n : ℕ) (block : List ℕ) → IsReturned (write (stdout n block) block)

-- write(2) takes each block whole.
abbrev pub TakesWhole : Stdout → Type 0
TakesWhole stdout = (n : ℕ) (block : List ℕ) → stdout n block ≡ some (length block) ∷ []

-- What is received of a text that begins with a byte begins with that byte.
abbrev pub BeginsAs : List ℕ → List ℕ → Type 0
BeginsAs [] more = Unit
BeginsAs (b ∷ text) more = (rest : List ℕ) × (more ≡ b ∷ rest)

abbrev Received : List ℕ → List ℕ → Outcome → Type 0
Received before buf (returned bytes) = (more : List ℕ) × (bytes ≡ before ++ more)
Received before buf (aborted bytes) = Unit
Received before buf (waiting bytes) = Unit

Received-append :
    (before bytes buf : List ℕ) (o : Outcome)
    → Received (before ++ bytes) buf o
    → Received before buf o
Received-append before bytes buf (returned r) (more, e) =
    (bytes ++ more, e ∙ append_assoc before bytes more)
Received-append before bytes buf (aborted r) h = tt
Received-append before bytes buf (waiting r) h = tt

write_loop-Received :
    (answers : List (Option ℕ)) (buf : List ℕ) (total : ℕ) (before : List ℕ)
    → Received before buf (write_loop answers buf total before)
unfolding write_loop
write_loop-Received [] buf total before =
    if_rule (Received before buf) (ltb total (length buf)) (λ _. tt)
      (λ _. ([], sym (append-nil before)))
write_loop-Received (none ∷ answers) buf total before =
    if_rule (Received before buf) (ltb total (length buf)) (λ _. tt)
      (λ _. ([], sym (append-nil before)))
write_loop-Received (some n ∷ answers) buf total before =
    if_rule (Received before buf) (ltb total (length buf))
      (λ _.
        if_rule (Received before buf) (n == 0) (λ _. tt)
          (λ _.
            Received-append before (take n buf) buf _
              (write_loop-Received answers buf (total + n) (before ++ take n buf))))
      (λ _. ([], sym (append-nil before)))

abbrev Begins : List ℕ → Outcome → Type 0
Begins buf (returned bytes) = BeginsAs buf bytes
Begins buf (aborted bytes) = Unit
Begins buf (waiting bytes) = Unit

first_taken :
    (n : ℕ) (b : ℕ) (buf : List ℕ) (o : Outcome)
    → (n == 0) ≡ false
    → Received (take n (b ∷ buf)) (b ∷ buf) o
    → Begins (b ∷ buf) o
first_taken zero b buf o z h = absurd (==_false→ne 0 0 z refl)
first_taken (suc n) b buf (returned bytes) z (more, e) = (_, e)
first_taken (suc n) b buf (aborted bytes) z h = tt
first_taken (suc n) b buf (waiting bytes) z h = tt

write-nothing : (answers : List (Option ℕ)) → write answers [] ≡ returned []
unfolding write
write-nothing [] = refl
write-nothing (none ∷ answers) = refl
write-nothing (some n ∷ answers) = refl

-- The first byte that `Write` sends is the first of its block.
write-Begins : (answers : List (Option ℕ)) (buf : List ℕ) → Begins buf (write answers buf)
unfolding write
write-Begins answers [] = subst (Begins []) (sym (write-nothing answers)) tt
write-Begins [] (b ∷ buf) =
    if_rule (Begins (b ∷ buf)) (ltb 0 (length (b ∷ buf))) (λ _. tt)
      (λ e. absurd (omega (arith, ltb_false→le 0 (length (b ∷ buf)) e)))
write-Begins (none ∷ answers) (b ∷ buf) =
    if_rule (Begins (b ∷ buf)) (ltb 0 (length (b ∷ buf))) (λ _. tt)
      (λ e. absurd (omega (arith, ltb_false→le 0 (length (b ∷ buf)) e)))
write-Begins (some n ∷ answers) (b ∷ buf) =
    if_rule (Begins (b ∷ buf)) (ltb 0 (length (b ∷ buf)))
      (λ _.
        if_rule (Begins (b ∷ buf)) (n == 0) (λ _. tt)
          (λ z.
            first_taken n b buf _ z
              (write_loop-Received answers (b ∷ buf) (0 + n) (take n (b ∷ buf)))))
      (λ e. absurd (omega (arith, ltb_false→le 0 (length (b ∷ buf)) e)))

whole_block : (buf : List ℕ) → write (some (length buf) ∷ []) buf ≡ returned buf
whole_block [] = write-nothing _
whole_block (b ∷ buf) = write_whole [] (b ∷ buf) (omega arith)

pub TakesWhole-Completes : (stdout : Stdout) → TakesWhole stdout → Completes stdout
TakesWhole-Completes stdout h n block =
    subst IsReturned (sym (ap (λ a. write a block) (h n block) ∙ whole_block block)) tt

abbrev joined : List (List ℕ) → List ℕ
joined [] = []
joined (block ∷ blocks) = block ++ joined blocks

cut_loop-joined :
    (fuel : ℕ) (text : List ℕ) → length text ≤ fuel → joined (cut_loop fuel text) ≡ text
unfolding cut_loop
cut_loop-joined fuel [] h = refl
cut_loop-joined zero (ch ∷ text) h = absurd (omega arith)
cut_loop-joined (suc fuel) (ch ∷ text) h =
    ap (λ t. take 4096 (ch ∷ text) ++ t)
      (cut_loop-joined fuel (drop 4096 (ch ∷ text)) (omega (arith, length-drop 4096 (ch ∷ text))))
    ∙ take-append-drop 4096 (ch ∷ text)

cut-joined : (text : List ℕ) → joined (cut text) ≡ text
unfolding cut
cut-joined text = cut_loop-joined (length text) text (omega arith)

-- The text was passed on: STDOUT_FILENO received something that begins as the text does, and the text
-- itself where write(2) takes each block whole.
pub record Flushed (stdout : Stdout) (text : List ℕ) (before r : Router) : Type 0 where
  pub tun_same : r.tun_out ≡ before.tun_out
  pub writer_same : r.writer ≡ before.writer
  pub more : List ℕ
  pub grown : r.logged ≡ before.logged ++ more
  pub begins : BeginsAs text more
  pub whole : TakesWhole stdout → more ≡ text

BeginsAs-append :
    (block text bytes more : List ℕ)
    → BeginsAs block bytes
    → BeginsAs text more
    → (block ≡ [] → bytes ≡ [])
    → BeginsAs (block ++ text) (bytes ++ more)
BeginsAs-append [] text bytes more b h e = subst (λ t. BeginsAs text (t ++ more)) (sym (e refl)) h
BeginsAs-append (c ∷ block) text bytes more (rest, same) h e =
    (rest ++ more, ap (λ t. t ++ more) same)

bytes_of : Outcome → List ℕ
bytes_of (returned bytes) = bytes
bytes_of (aborted bytes) = bytes
bytes_of (waiting bytes) = bytes

nothing_sent :
    (answers : List (Option ℕ)) (block bytes : List ℕ)
    → write answers block ≡ returned bytes
    → block ≡ []
    → bytes ≡ []
unfolding bytes_of
nothing_sent answers block bytes e h =
    ap bytes_of (sym e ∙ ap (write answers) h ∙ write-nothing answers)

step_back :
    (stdout : Stdout) (router : Router) (block bytes : List ℕ)
    → write (stdout router.blocks block) block ≡ returned bytes
    → TakesWhole stdout
    → bytes ≡ block
unfolding bytes_of
step_back stdout router block bytes e h =
    ap bytes_of (sym e ∙ ap (λ a. write a block) (h router.blocks block) ∙ whole_block block)

pass_on-Flushed :
    (stdout : Stdout)
    → Completes stdout
    → (blocks : List (List ℕ)) (router : Router)
    → (r : Router) × (pass_on stdout blocks router ≡ runs r)
      × Flushed stdout (joined blocks) router r
unfolding pass_on passed_on
pass_on-Flushed stdout h [] router = (
  router,
  refl,
  record {
    tun_same = refl;
    writer_same = refl;
    more = [];
    grown = sym (append-nil router.logged);
    begins = tt;
    whole = λ _. refl;
  },
)
pass_on-Flushed stdout h (block ∷ blocks) router =
    go (write (stdout router.blocks block) block) refl (h router.blocks block)
      (write-Begins (stdout router.blocks block) block) (pass_on-Flushed stdout h blocks)
  where
    go :
        (o : Outcome)
        → write (stdout router.blocks block) block ≡ o
        → IsReturned o
        → Begins block o
        → ((next : Router)
            → (r : Router) × (pass_on stdout blocks next ≡ runs r)
              × Flushed stdout (joined blocks) next r)
        → (r : Router) × (and_then (passed_on router o) (pass_on stdout blocks) ≡ runs r)
          × Flushed stdout (block ++ joined blocks) router r
    go (returned bytes) e _ b rest =
        let (r, same, f) =
          rest (record router { blocks = router.blocks + 1; logged = router.logged ++ bytes }) in
        (
          r,
          same,
          record {
            tun_same = f.tun_same;
            writer_same = f.writer_same;
            more = bytes ++ f.more;
            grown = f.grown ∙ append_assoc router.logged bytes f.more;
            begins =
                BeginsAs-append block (joined blocks) bytes f.more b f.begins
                  (nothing_sent _ block bytes e);
            whole = λ w. ap₂ (λ x y. x ++ y) (step_back stdout router block bytes e w) (f.whole w);
          },
        )
    go (aborted bytes) e k b rest = absurd k
    go (waiting bytes) e k b rest = absurd k

-- Where every `Write` of the log's stream returns, what the printer printed is passed on.
pub flush-Flushed :
    (stdout : Stdout) (text : List ℕ) (router : Router)
    → Completes stdout
    → (r : Router) × (pass_on stdout (cut text) router ≡ runs r) × Flushed stdout text router r
flush-Flushed stdout text router h =
    let (r, e, f) = pass_on-Flushed stdout h (cut text) router in
    (r, e, subst (λ t. Flushed stdout t router r) (cut-joined text) f)
