-- ===== src/IpAddress/Order.antt =====
-- net/ip_address.h: `memcmp` orders the addresses of one size strictly and totally.
use cheaproute.Prelude.{
  ℕ, ◌≡◌, refl, sym, ◌∙◌, ap₂, ◌⊎◌, inl, inr, Bool, true, false, ◌||◌, ◌&&◌, List, [], ◌∷◌, ltb,
  ◌==◌, ltb→lt, lt→ltb, ==_iff, arith, Bool-cases, ◌<◌,
}
use cheaproute.IpAddress.{less}

-- The two ways in which a first byte decides.
less-cons_cases :
    (x y : ℕ) (b : Bool) → (ltb x y || (x == y && b)) ≡ true → (x < y) ⊎ ((x ≡ y) × (b ≡ true))
less-cons_cases x y b h = elim (Bool-cases (ltb x y)) [
  | inl e ↦ inl (ltb→lt x y e)
  | inr e ↦ inr (equal_part (x == y) b (sym (ap₂ (λ u v. u || v) e refl) ∙ h) refl)
]
  where
    equal_part : (u v : Bool) → (u && v) ≡ true → (x == y) ≡ u → (x ≡ y) × (v ≡ true)
    equal_part true v k same = ((==_iff x y).0 same, k)
    equal_part false v k same = cc

less-cons_lt : (x y : ℕ) (b : Bool) → x < y → (ltb x y || (x == y && b)) ≡ true
less-cons_lt x y b h = rw (lt→ltb x y h) refl

less-cons_eq : (x y : ℕ) (b : Bool) → x ≡ y → b ≡ true → (ltb x y || (x == y && b)) ≡ true
less-cons_eq x y b h k = elim (Bool-cases (ltb x y)) [
  | inl e ↦ rw e refl
  | inr e ↦ rw (e, (==_iff x y).1 h, k) refl
]

pub less_trans : (xs ys zs : List ℕ) → less xs ys ≡ true → less ys zs ≡ true → less xs zs ≡ true
unfolding less
less_trans [] [] zs h k = cc
less_trans [] (y ∷ ys) zs h k = cc
less_trans (x ∷ xs) [] zs h k = cc
less_trans (x ∷ xs) (y ∷ ys) [] h k = cc
less_trans (x ∷ xs) (y ∷ ys) (z ∷ zs) h k = elim (less-cons_cases x y (less xs ys) h) [
  | inl a ↦ elim (less-cons_cases y z (less ys zs) k) [
    | inl b ↦ less-cons_lt x z (less xs zs) (omega arith)
    | inr b ↦ less-cons_lt x z (less xs zs) (omega (arith, b.0))
  ]
  | inr a ↦ elim (less-cons_cases y z (less ys zs) k) [
    | inl b ↦ less-cons_lt x z (less xs zs) (omega (arith, a.0))
    | inr b ↦ less-cons_eq x z (less xs zs) (a.0 ∙ b.0) (less_trans xs ys zs a.1 b.1)
  ]
]

pub less_irrefl : (xs : List ℕ) → less xs xs ≡ false
unfolding less
less_irrefl [] = refl
less_irrefl (x ∷ xs) = rw (less_irrefl xs) (none_less x)
  where
    none_less : (n : ℕ) → (ltb n n || (n == n && false)) ≡ false
    none_less n = ground arith
