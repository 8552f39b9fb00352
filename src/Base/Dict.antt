-- ===== src/Base/Dict.antt =====
-- Maps from keys to values as association lists, for those whose order nothing reads. `same` compares
-- two keys.
use mathlib.Core.Path.{◌≡◌, refl, sym, ap, ◌∙◌}
use mathlib.Core.Bool.{Bool, true}
use mathlib.Core.Logic.{inl, inr}
use mathlib.Core.List.{List, [], ◌∷◌}
use mathlib.Core.Option.{Option, none, some}
use native.Mathlib.Omega.{arith}
use lotospp.Base.Tests.{if◌then◌else◌, Bool-cases}

module _ {κ ν} {K : Type κ} {V : Type ν} (same : K → K → Bool) where
  unfoldable pub lookup : K → List (K × V) → Option V
  lookup k [] = none
  lookup k ((k', v) ∷ d) = if same k' k then some v else lookup k d

  -- operator[] with an assignment, and insert_or_assign.
  unfoldable pub assign : K → V → List (K × V) → List (K × V)
  assign k v [] = (k, v) ∷ []
  assign k v ((k', w) ∷ d) = if same k' k then (k', v) ∷ d else (k', w) ∷ assign k v d

  -- emplace keeps the value that is there.
  pub emplace : K → V → List (K × V) → List (K × V)
  unfolding lookup assign
  emplace k v d = elim (lookup k d) [ none ↦ assign k v d | some w ↦ d ]

-- What a look-up finds behind an assignment, where `same` tells whether keys are equal.
module _ {κ ν} {K : Type κ} {V : Type ν} (same : K → K → Bool)
    (same_refl : (k : K) → same k k ≡ true) (same→eq : (j k : K) → same j k ≡ true → j ≡ k) where
  pub lookup-assign :
      (j k : K) (v : V) (d : List (K × V))
      → lookup same j (assign same k v d) ≡ (if same k j then some v else lookup same j d)
  unfolding lookup assign
  lookup-assign j k v [] = refl
  lookup-assign j k v ((k', w) ∷ d) = elim (Bool-cases (same k' k)) [
    | inl e ↦ let e' : same k' j ≡ same k j = ap (λ x. same x j) (same→eq k' k e) in ground arith
    | inr e ↦ elim (Bool-cases (same k' j)) [
      | inl d₁ ↦ elim (Bool-cases (same k j)) [
        | inl d₂ ↦
            let k'_k : k' ≡ k = same→eq k' j d₁ ∙ sym (same→eq k j d₂) in
            let t : same k' k ≡ true = ap (λ x. same x k) k'_k ∙ same_refl k in
            absurd (ground arith)
        | inr d₂ ↦ ground arith
      ]
      | inr d₁ ↦ ground (arith, lookup-assign j k v d)
    ]
  ]
