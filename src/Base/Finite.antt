-- ===== src/Base/Finite.antt =====
-- A test on every number below a bound, so that a fact about bytes or digits is one computation.
use Prim.Native.Nat.{ℕ, zero, suc, ◌<◌}
use mathlib.Core.Path.{◌≡◌, sym, subst}
use mathlib.Core.Logic.{inl, inr}
use mathlib.Core.Bool.{Bool, true, ◌&&◌}
use native.Mathlib.Omega.{arith}
use lotospp.Base.Tests.{◌==◌, Bool-cases}

abbrev pub holds_to : ℕ → (ℕ → Bool) → Bool
holds_to zero test = true
holds_to (suc n) test = test n && holds_to n test

pub holds_to-at :
    (n : ℕ) (test : ℕ → Bool) → holds_to n test ≡ true → (x : ℕ) → x < n → test x ≡ true
holds_to-at zero test h x l = absurd (omega arith)
holds_to-at (suc n) test h x l = elim (Bool-cases (x == n)) [
  | inl same ↦ let e : x ≡ n = ground arith in subst (λ z. test z ≡ true) (sym e) (ground arith)
  | inr other ↦ holds_to-at n test (ground arith) x (ground arith)
]

-- The same of pairs, with an equation as the test.
pub equal_at :
    (n m : ℕ) (f g : ℕ → ℕ → ℕ)
    → holds_to n (λ x. holds_to m (λ y. f x y == g x y)) ≡ true
    → (x y : ℕ) → x < n
    → y < m
    → f x y ≡ g x y
equal_at n m f g h x y l k =
    let row = holds_to-at n (λ z. holds_to m (λ w. f z w == g z w)) h x l in
    let entry = holds_to-at m (λ w. f x w == g x w) row y k in ground (arith, entry)
