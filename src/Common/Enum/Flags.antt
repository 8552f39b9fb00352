-- ===== src/Common/Enum/Flags.antt =====
-- The sets of flags of src/Common/enum.h: BitEnum's set, unset, isSet and index.
use lotospp.Base.{
  ℕ, zero, suc, ◌+◌, ◌*◌, ◌^◌, ◌<◌, ◌≤◌, ◌≡◌, refl, sym, subst, ◌∙◌, Bool, true, false, not, ◌&&◌,
  ◌==◌, ltb, if◌then◌else◌, holds_to, holds_to-at, bit_and, arith, inl, inr, Bool-cases,
}
use native.Mathlib.Nat.{pow-succ'}
use lotospp.Common.Enum.{set_flag, unset_flag, is_set, index, index_loop, complement}

-- The flags of TelnetFlag and of UserFlag are no more than these.
abbrev flag_count : ℕ
flag_count = 7

abbrev pub flag : ℕ → ℕ
flag i = 2 ^ i

abbrev agree : Bool → Bool → Bool
agree true b = b
agree false b = not b

agree→eq : (a b : Bool) → agree a b ≡ true → a ≡ b
agree→eq true b e = sym e
agree→eq false true e = e
agree→eq false false e = refl

-- The facts of one set and two flags, as a test.
behaves : ℕ → ℕ → ℕ → Bool
unfolding set_flag unset_flag is_set complement
behaves v i j =
    agree (is_set (set_flag v (flag i)) (flag j)) (if i == j then true else is_set v (flag j))
    && agree (is_set (unset_flag v (flag i)) (flag j)) (if i == j then false else is_set v (flag j))
    && ltb (set_flag v (flag i)) 128
    && ltb (unset_flag v (flag i)) 128

behaves_everywhere :
    holds_to 128 (λ v. holds_to flag_count (λ i. holds_to flag_count (behaves v i))) ≡ true
unfolding behaves
behaves_everywhere = refl

four_parts :
    (p q : Bool) (m n : ℕ)
    → (p && q && ltb m 128 && ltb n 128) ≡ true
    → (p ≡ true) × (q ≡ true) × (m < 128) × (n < 128)
four_parts p q m n h = ground arith

-- A set of up to seven flags is one truth value for each: set makes isSet true of its flag and unset makes it
-- false, both leave isSet of the other flags as it was, and both give such a set.
pub flags_independent :
    (v i j : ℕ)
    → v < 128
    → i < 7
    → j < 7
    → (is_set (set_flag v (flag i)) (flag j) ≡ (if i == j then true else is_set v (flag j)))
      × (is_set (unset_flag v (flag i)) (flag j) ≡ (if i == j then false else is_set v (flag j)))
      × (set_flag v (flag i) < 128)
      × (unset_flag v (flag i) < 128)
unfolding behaves
flags_independent v i j a b c =
    let row =
      holds_to-at 128 (λ w. holds_to flag_count (λ i'. holds_to flag_count (behaves w i')))
        behaves_everywhere v a in
    let cell = holds_to-at flag_count (λ i'. holds_to flag_count (behaves v i')) row i b in
    let e = holds_to-at flag_count (behaves v i) cell j c in
    let a₁ : Bool = is_set (set_flag v (flag i)) (flag j) in
    let b₁ : Bool = if i == j then true else is_set v (flag j) in
    let a₂ : Bool = is_set (unset_flag v (flag i)) (flag j) in
    let b₂ : Bool = if i == j then false else is_set v (flag j) in
    let (x, y, m, n) =
      four_parts (agree a₁ b₁) (agree a₂ b₂) (set_flag v (flag i)) (unset_flag v (flag i)) e in
    (agree→eq a₁ b₁ x, agree→eq a₂ b₂ y, m, n)

-- The bit `k` of a value, as index tests it.
abbrev pub has_bit : ℕ → ℕ → Bool
has_bit v k = bit_and v (2 ^ k) == 2 ^ k

double : (j : ℕ) → 2 * 2 ^ j ≡ 2 ^ (j + 1)
double j = let e : suc j ≡ j + 1 = omega arith in sym (pow-succ' 2 j) ∙ (λ i. 2 ^ e i)

index_loop-first :
    (n v j k : ℕ)
    → j ≤ k
    → k < j + n
    → has_bit v k ≡ true
    → ((i : ℕ) → i < k → has_bit v i ≡ false)
    → index_loop n v (2 ^ j) j ≡ k
unfolding index_loop
index_loop-first zero v j k m l h b = absurd (omega arith)
index_loop-first (suc n) v j k m l h b = elim (Bool-cases (j == k)) [
  | inl here ↦
      let e : j ≡ k = ground arith in
      subst (λ i. index_loop (suc n) v (2 ^ i) i ≡ k) (sym e) (ground arith)
  | inr later ↦
      let rest = index_loop-first n v (j + 1) k (ground arith) (ground arith) h b in
      let next : index_loop n v (2 * 2 ^ j) (j + 1) ≡ k =
        (λ i. index_loop n v (double j i) (j + 1)) ∙ rest in
      ground (arith, b j (ground arith), next)
]

index_loop-nothing :
    (n v j : ℕ) → ((i : ℕ) → i < j + n → has_bit v i ≡ false) → index_loop n v (2 ^ j) j ≡ 0
unfolding index_loop
index_loop-nothing zero v j b = refl
index_loop-nothing (suc n) v j b =
    let rest = index_loop-nothing n v (j + 1) (λ i l. b i (omega arith)) in
    let next : index_loop n v (2 * 2 ^ j) (j + 1) ≡ 0 =
      (λ i. index_loop n v (double j i) (j + 1)) ∙ rest in
    ground (arith, b j (omega arith), next)

-- For every value, index is the lowest of its first 31 bits that is set, and 0 where none is.
pub index_lowest :
    (v : ℕ)
    → ((k : ℕ)
        → k < 31
        → has_bit v k ≡ true
        → ((i : ℕ) → i < k → has_bit v i ≡ false)
        → index v ≡ k)
      × (((i : ℕ) → i < 31 → has_bit v i ≡ false) → index v ≡ 0)
unfolding index
index_lowest v =
    (λ k l h b. index_loop-first 31 v 0 k (omega arith) l h b, index_loop-nothing 31 v 0)
