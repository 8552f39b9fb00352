-- ===== src/Base/Bytes.antt =====
-- Bytes and `char`. On the platforms of the build a plain `char` is signed, so a byte of 128 or more
-- is negative in a comparison; `char_lt` is the comparison of a `char` with a small literal.
use Prim.Native.Nat.{ℕ}
use Prim.Native.Char.{code}
use Prim.Native.String.{String}
use mathlib.Core.Path.{◌≡◌, refl}
use mathlib.Core.Bool.{Bool, true, false, ◌||◌, ◌&&◌}
use mathlib.Core.List.{List, [], ◌∷◌}
use native.Mathlib.Omega.{arith}
use lotospp.Base.Tests.{ltb, leb, ◌==◌}

-- A text literal of ASCII characters as its bytes.
abbrev pub codes : String → List ℕ
codes (String.◌∷◌ first rest) = code first ∷ codes rest
codes String.[] = []

-- `c < k` for a signed `char` and a literal `k` of 0 to 127.
abbrev pub char_lt : ℕ → ℕ → Bool
char_lt c k = leb 128 c || ltb c k

-- A predicate that holds of every element.
module _ {ℓ} {A : Type ℓ} where
  abbrev pub all : (A → Bool) → List A → Bool
  all p [] = true
  all p (x ∷ xs) = p x && all p xs

-- Texts as std::string compares them.
abbrev pub equals : List ℕ → List ℕ → Bool
equals [] [] = true
equals (x ∷ xs) (y ∷ ys) = x == y && equals xs ys
equals _ _ = false

pub equals_refl : (xs : List ℕ) → equals xs xs ≡ true
equals_refl [] = refl
equals_refl (x ∷ xs) = ground (arith, equals_refl xs)

pub equals→eq : (xs ys : List ℕ) → equals xs ys ≡ true → xs ≡ ys
equals→eq [] [] h = refl
equals→eq [] (y ∷ ys) h = absurd (ground arith)
equals→eq (x ∷ xs) [] h = absurd (ground arith)
equals→eq (x ∷ xs) (y ∷ ys) h = ground (arith, equals→eq xs ys)
