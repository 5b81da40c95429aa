-- ===== src/Broadcaster/Registered.antt =====
-- base/broadcaster.h: the vector of a broadcaster holds the listeners whose handles live.
use cheaproute.Prelude.{
  ℕ, suc, ◌+◌, ◌<◌, ◌≡◌, refl, sym, ◌∙◌, ap, subst, true, false, List, [], ◌∷◌, ◌++◌, append-nil,
  arith, ◌==◌, ==_iff, ==_false→ne, ne→==_false, if_rule, or_false, or_right, Bool-cases, inl, inr,
  length, drop_all,
}
use cheaproute.Broadcaster.{
  listening, contains, without, add_listener, remove_listener, destroy_handle, Call, adds, drops,
  run,
}

abbrev pub Distinct : List ℕ → Type 0
Distinct [] = Unit
Distinct (x ∷ xs) = (contains x xs ≡ false) × Distinct xs

-- The listeners whose handles live after the calls, in the order in which they were added.
unfoldable pub registered : List Call → List ℕ → List ℕ
registered [] xs = xs
registered (adds listener ∷ calls) xs = registered calls (xs ++ listener ∷ [])
registered (drops listener ∷ calls) xs = registered calls (without listener xs)

-- A listener is added that is not NULL and not registered, and a handle is destroyed that lives.
abbrev pub IsProper : List Call → List ℕ → Type 0
IsProper [] xs = Unit
IsProper (adds listener ∷ calls) xs =
    (0 < listener) × (contains listener xs ≡ false) × IsProper calls (xs ++ listener ∷ [])
IsProper (drops listener ∷ calls) xs =
    (contains listener xs ≡ true) × IsProper calls (without listener xs)

without_absent : (l : ℕ) (xs : List ℕ) → contains l xs ≡ false → without l xs ≡ xs
unfolding contains without
without_absent l [] h = refl
without_absent l (x ∷ xs) h =
    let (differs, absent) = or_false (x == l) (contains l xs) h in
    rw differs (ap (λ t. x ∷ t) (without_absent l xs absent))

length-without :
    (l : ℕ) (xs : List ℕ)
    → contains l xs ≡ true
    → Distinct xs
    → suc (length (without l xs)) ≡ length xs
unfolding contains without
length-without l [] h d = cc
length-without l (x ∷ xs) h (absent, d) = elim (Bool-cases (x == l)) [
  | inl e ↦ rw e (
      ap (λ t. suc (length t))
        (without_absent l xs (subst (λ y. contains y xs ≡ false) ((==_iff x l).0 e) absent)))
  | inr e ↦ rw e (ap suc (length-without l xs (or_right (x == l) (contains l xs) e h) d))
]

contains-without :
    (y l : ℕ) (xs : List ℕ) → contains y xs ≡ false → contains y (without l xs) ≡ false
unfolding contains without
contains-without y l [] h = refl
contains-without y l (x ∷ xs) h =
    let (differs, absent) = or_false (x == y) (contains y xs) h in
    if_rule (λ t. contains y t ≡ false) (x == l) (λ e. contains-without y l xs absent)
      (λ e. rw differs (contains-without y l xs absent))

without-Distinct : (l : ℕ) (xs : List ℕ) → Distinct xs → Distinct (without l xs)
unfolding without
without-Distinct l [] d = tt
without-Distinct l (x ∷ xs) (absent, d) =
    if_rule Distinct (x == l) (λ e. without-Distinct l xs d)
      (λ e. (contains-without x l xs absent, without-Distinct l xs d))

contains-added :
    (y l : ℕ) (xs : List ℕ)
    → (l == y) ≡ false
    → contains y xs ≡ false
    → contains y (xs ++ l ∷ []) ≡ false
unfolding contains
contains-added y l [] e h = rw e refl
contains-added y l (x ∷ xs) e h =
    let (differs, absent) = or_false (x == y) (contains y xs) h in
    rw differs (contains-added y l xs e absent)

added-Distinct :
    (l : ℕ) (xs : List ℕ) → contains l xs ≡ false → Distinct xs → Distinct (xs ++ l ∷ [])
unfolding contains
added-Distinct l [] h d = (refl, tt)
added-Distinct l (x ∷ xs) h (absent, d) =
    let (differs, others) = or_false (x == l) (contains l xs) h in
    (
      contains-added x l xs (ne→==_false l x (λ e. ==_false→ne x l differs (sym e))) absent,
      added-Distinct l xs others d,
    )

-- The erased position is the last, so the listener alone goes.
remove_listener-without :
    (l : ℕ) (xs : List ℕ)
    → contains l xs ≡ true
    → Distinct xs
    → remove_listener l xs ≡ listening (without l xs)
unfolding remove_listener
remove_listener-without l xs h d =
    let e = length-without l xs h d in
    rw (ne→==_false (length (without l xs)) (length xs) (λ s. absurd (omega arith))) (
      ap (λ t. listening (without l xs ++ t))
        (drop_all (length (without l xs) + 1) xs (omega arith))
      ∙ ap listening (append-nil (without l xs)))

-- From a vector of different listeners, calls that each add a listener that is not NULL and not
-- registered, or destroy a handle that lives, fail no check, never erase the end of the vector, and
-- leave in it exactly the listeners whose handles live, in the order in which they were added, each
-- once.
pub run-registered :
    (calls : List Call) (xs : List ℕ)
    → Distinct xs
    → IsProper calls xs
    → (run calls (listening xs) ≡ listening (registered calls xs)) × Distinct (registered calls xs)
unfolding run registered
run-registered [] xs d p = (refl, d)
run-registered (adds l ∷ calls) xs d (positive, absent, p) =
    let (e, d') = run-registered calls (xs ++ l ∷ []) (added-Distinct l xs absent d) p in
    (ap (run calls) (added l xs positive absent) ∙ e, d')
  where
    added :
        (l : ℕ) (xs : List ℕ)
        → 0 < l
        → contains l xs ≡ false
        → add_listener l (listening xs) ≡ listening (xs ++ l ∷ [])
    added l xs h k = unfold add_listener in rw (ne→==_false l 0 (omega arith), k) refl
run-registered (drops l ∷ calls) xs d (present, p) =
    let (e, d') = run-registered calls (without l xs) (without-Distinct l xs d) p in
    (ap (run calls) (unfold destroy_handle in remove_listener-without l xs present d) ∙ e, d')
