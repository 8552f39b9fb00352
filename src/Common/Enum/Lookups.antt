-- ===== src/Common/Enum/Lookups.antt =====
-- What the look-ups of src/Common/enum.h find in an enumeration that initialize has filled.
use lotospp.Base.{
  ℕ, ◌≡◌, ◌⊎◌, refl, Bool, true, false, not, ◌||◌, List, [], ◌∷◌, ◌++◌, append_assoc, Option, none,
  some, ◌==◌, if◌then◌else◌, equals, lookup, lookup-assign, arith, Bool-cases, inl, inr,
}
use lotospp.Common.Enum.{
  Enum, empty, Lookup, got, thrown, to_string, exists, names_or, init_add_value, value_out_of_range,
}

-- The arguments of a call of initAddValue.
pub record Entry : Type 0 where
  pub value : ℕ
  pub name : List ℕ
  pub text : List ℕ

-- The calls of an enumeration's initialize.
unfoldable pub initialize : (List ℕ → List ℕ) → List Entry → Enum → Enum
initialize lower [] e = e
initialize lower (n ∷ ns) e = initialize lower ns (init_add_value lower e n.value n.name n.text)

-- The names that the calls give a value, in their order.
unfoldable pub names_of : ℕ → List Entry → List (List ℕ)
names_of v [] = []
names_of v (n ∷ ns) = if n.value == v then n.name ∷ names_of v ns else names_of v ns

unfoldable pub is_named : (List ℕ → List ℕ) → List ℕ → List Entry → Bool
is_named via s [] = false
is_named via s (n ∷ ns) = equals (via n.name) s || is_named via s ns

==_refl : (v : ℕ) → (v == v) ≡ true
==_refl v = ground arith

==→eq : (v w : ℕ) → (v == w) ≡ true → v ≡ w
==→eq v w h = ground arith

abbrev is_some {ℓ} : {A : Type ℓ} → Option A → Bool
is_some none = false
is_some (some a) = true

abbrev pub is_empty {ℓ} : {A : Type ℓ} → List A → Bool
is_empty [] = true
is_empty (x ∷ xs) = false

abbrev pub first_name : ℕ → List (List ℕ) → Lookup (List ℕ)
first_name v [] = thrown (value_out_of_range v)
first_name v (n ∷ ns) = got n

List-cases {ℓ} : {A : Type ℓ} (xs : List A) → (xs ≡ []) ⊎ ((x : A) × (ys : List A) × (xs ≡ x ∷ ys))
List-cases [] = inl refl
List-cases (x ∷ xs) = inr (x, xs, refl)

-- More names behind those of a value.
abbrev more : Option (List (List ℕ)) → List (List ℕ) → Option (List (List ℕ))
more o [] = o
more o (n ∷ ns) = some (names_or o ++ n ∷ ns)

more-more :
    (o : Option (List (List ℕ))) (n : List ℕ) (ns : List (List ℕ))
    → more (some (names_or o ++ n ∷ [])) ns ≡ more o (n ∷ ns)
more-more o n [] = refl
more-more o n (m ∷ ms) = rw (append_assoc (names_or o) (n ∷ []) (m ∷ ms)) refl

lookup-initialize :
    (lower : List ℕ → List ℕ) (v : ℕ) (ns : List Entry) (e : Enum)
    → lookup ◌==◌ v (initialize lower ns e).enum_to_string
      ≡ more (lookup ◌==◌ v e.enum_to_string) (names_of v ns)
unfolding initialize names_of init_add_value
lookup-initialize lower v [] e = refl
lookup-initialize lower v (n ∷ ns) e =
    let e' = init_add_value lower e n.value n.name n.text in
    let names = names_or (lookup ◌==◌ n.value e.enum_to_string) ++ n.name ∷ [] in
    let step = lookup-assign ◌==◌ ==_refl ==→eq v n.value names e.enum_to_string in
    let rest = lookup-initialize lower v ns e' in
    elim (Bool-cases (n.value == v)) [
      | inl same ↦
          let key : n.value ≡ v = ==→eq n.value v same in
          let at : lookup ◌==◌ n.value e.enum_to_string ≡ lookup ◌==◌ v e.enum_to_string =
            λ k. lookup ◌==◌ (key k) e.enum_to_string in
          let joined = more-more (lookup ◌==◌ v e.enum_to_string) n.name (names_of v ns) in
          ground (arith, rest, step, at, joined)
      | inr other ↦ ground (arith, rest, step)
    ]

-- What an initialize fills: toString gives the first name that a value was given and throws where it
-- has none, and exists tells which it is.
pub to_string-initialize :
    (lower : List ℕ → List ℕ) (ns : List Entry) (v : ℕ)
    → (to_string (initialize lower ns empty) v ≡ first_name v (names_of v ns))
      × (exists (initialize lower ns empty) v ≡ not (is_empty (names_of v ns)))
unfolding to_string exists lookup
to_string-initialize lower ns v =
    let e = lookup-initialize lower v ns empty in
    elim (List-cases (names_of v ns)) [
      | inl nobody ↦ (ground (arith, e), ground (arith, e))
      | inr (n, others, named) ↦ (ground (arith, e), ground (arith, e))
    ]
