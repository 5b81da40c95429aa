-- ===== src/Prelude/Table.antt =====
-- Statements about the numbers up to a bound, checked by evaluation over all of them.
use Prim.Native.Nat.{ℕ, zero, suc, ◌<◌}
use mathlib.Core.Path.{◌≡◌, ap, ◌∙◌}
use mathlib.Core.Logic.{inl, inr}
use cheaproute.Prelude.Tests.{and_parts, Bool-cases, ◌==◌, ==_iff, ==_false→ne}
use mathlib.Core.Bool.{Bool, true, ◌&&◌}
use native.Mathlib.Omega.{arith}

unfoldable pub passes : (ℕ → Bool) → ℕ → Bool
passes test zero = true
passes test (suc bound) = passes test bound && test bound

pub passes-at :
    (test : ℕ → Bool) (bound : ℕ) → passes test bound ≡ true → (n : ℕ) → n < bound → test n ≡ true
unfolding passes
passes-at test zero h n l = absurd (omega arith)
passes-at test (suc bound) h n l =
    let (below, here) = and_parts (passes test bound) (test bound) h in
    elim (Bool-cases (n == bound)) [
      | inl e ↦ ap test ((==_iff n bound).0 e) ∙ here
      | inr e ↦ passes-at test bound below n (omega (arith, ==_false→ne n bound e))
    ]
