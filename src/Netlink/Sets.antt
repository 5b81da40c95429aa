-- ===== src/Netlink/Sets.antt =====
-- The `std::set`s of addresses: sorted lists, by a key that `memcmp` orders.
use cheaproute.Prelude.{ℕ, ◌≡◌, refl, ap, Bool, true, false, List, [], ◌∷◌, elim_rule}
use cheaproute.IpAddress.{less}

module _ {A : Type 0} (key : A → List ℕ) where
  -- `insert`, and whether the element was new.
  unfoldable pub insert : A → List A → List A × Bool
  unfolding less
  insert x [] = (x ∷ [], true)
  insert x (y ∷ ys) = elim (less (key x) (key y)) [
    | true ↦ (x ∷ y ∷ ys, true)
    | false ↦ elim (less (key y) (key x)) [
      | true ↦ (y ∷ (insert x ys).0, (insert x ys).1)
      | false ↦ (y ∷ ys, false)
    ]
  ]

  -- `erase` of an element, and whether there was one.
  unfoldable pub erase : A → List A → List A × Bool
  unfolding less
  erase x [] = ([], false)
  erase x (y ∷ ys) = elim (less (key x) (key y)) [
    | true ↦ (y ∷ ys, false)
    | false ↦ elim (less (key y) (key x)) [
      | true ↦ (y ∷ (erase x ys).0, (erase x ys).1)
      | false ↦ (ys, true)
    ]
  ]

  -- Where nothing was new, or nothing was there to erase, the set is as it was.
  pub insert-kept : (x : A) (xs : List A) → (insert x xs).1 ≡ false → (insert x xs).0 ≡ xs
  unfolding insert
  insert-kept x [] = λ h. cc
  insert-kept x (y ∷ ys) =
      elim_rule (λ (r : List A × Bool). r.1 ≡ false → r.0 ≡ y ∷ ys) (less (key x) (key y)) _ _
        (λ _ h. cc)
        (λ _.
          elim_rule (λ (r : List A × Bool). r.1 ≡ false → r.0 ≡ y ∷ ys) (less (key y) (key x)) _ _
            (λ _ h. ap (λ t. y ∷ t) (insert-kept x ys h)) (λ _ h. refl))

  pub erase-kept : (x : A) (xs : List A) → (erase x xs).1 ≡ false → (erase x xs).0 ≡ xs
  unfolding erase
  erase-kept x [] = λ h. refl
  erase-kept x (y ∷ ys) =
      elim_rule (λ (r : List A × Bool). r.1 ≡ false → r.0 ≡ y ∷ ys) (less (key x) (key y)) _ _
        (λ _ h. refl)
        (λ _.
          elim_rule (λ (r : List A × Bool). r.1 ≡ false → r.0 ≡ y ∷ ys) (less (key y) (key x)) _ _
            (λ _ h. ap (λ t. y ∷ t) (erase-kept x ys h)) (λ _ h. cc))
