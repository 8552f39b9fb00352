-- ===== src/Common/AutoId/Fresh.antt =====
-- The constructor of src/Common/AutoID.h finds a free id whenever there is one.
use lotospp.Base.{
  ℕ, zero, suc, ◌+◌, ◌-◌, ◌≤◌, ◌<◌, ◌≡◌, ◌≢◌, refl, inl, inr, Bool, true, false, some, leb, ◌==◌,
  if◌then◌else◌, arith, Bool-cases,
}
use lotospp.Common.AutoId.{AutoId, first_id, limit, search, advance, new_between, new_id}

-- How many ids the loop tries from `count` before it comes to `f`.
distance : ℕ → ℕ → ℕ → ℕ → ℕ
distance lo hi f count = if leb count f then f - count else hi - count + 1 + (f - lo)

search_finds :
    (fuel lo hi f count : ℕ) (used : ℕ → Bool)
    → used f ≡ false
    → lo ≤ f
    → f ≤ hi
    → lo ≤ count
    → count ≤ hi
    → distance lo hi f count < fuel
    → (id : ℕ) × (search lo hi fuel used count ≡ some id)
      × (used id ≡ false)
      × (lo ≤ id)
      × (id ≤ hi)
unfolding search distance
search_finds zero lo hi f count used u a b c d h = absurd (omega arith)
search_finds (suc fuel) lo hi f count used u a b c d h = elim (Bool-cases (used count)) [
  | inl taken ↦
      let other : f ≢ count = λ e. cc in
      let (id, e, fr, l, r) =
        search_finds fuel lo hi f (if leb hi count then lo else count + 1) used u a b (ground arith)
          (ground arith) (ground arith) in
      (id, ground arith, fr, l, r)
  | inr free ↦ (count, ground arith, free, c, d)
]

distance-le :
    (lo hi f count : ℕ)
    → lo ≤ f
    → f ≤ hi
    → lo ≤ count
    → count ≤ hi
    → distance lo hi f count ≤ hi - lo
unfolding distance
distance-le lo hi f count a b c d = ground arith

new_between_fresh :
    (lo hi f : ℕ) (a : AutoId)
    → a.used f ≡ false
    → lo ≤ f
    → f ≤ hi
    → lo ≤ a.count
    → (a' : AutoId) × (id : ℕ) × (new_between lo hi a ≡ some (a', id))
      × (a.used id ≡ false)
      × (a'.used ≡ (λ j. if j == id then true else a.used j))
      × (a'.count ≡ id)
      × (lo ≤ id)
      × (id ≤ hi)
unfolding new_between advance
new_between_fresh lo hi f a u l h c =
    let (id, e, fr, low, high) =
      search_finds (suc (hi - lo)) lo hi f (if leb hi (a.count + 1) then lo else a.count + 1) a.used
        u l h (ground arith) (ground arith)
        (omega (
          arith,
          distance-le lo hi f (if leb hi (a.count + 1) then lo else a.count + 1) l h (ground arith)
              (ground arith),
        )) in
    (
      record { count = id; used = λ j. if j == id then true else a.used j },
      id,
      ground arith,
      fr,
      refl,
      refl,
      low,
      high,
    )

-- Whenever an id from 1000 to 0xFFFFFF is free the constructor ends, and gives an id in that range that
-- nobody has; afterwards that id is in use, the others are as before, and the next search starts
-- behind it. The last id given is at least 1000.
pub new_id_fresh :
    (f : ℕ) (a : AutoId)
    → a.used f ≡ false
    → first_id ≤ f
    → f ≤ limit
    → first_id ≤ a.count
    → (a' : AutoId) × (id : ℕ) × (new_id a ≡ some (a', id))
      × (a.used id ≡ false)
      × (a'.used ≡ (λ j. if j == id then true else a.used j))
      × (a'.count ≡ id)
      × (first_id ≤ id)
      × (id ≤ limit)
unfolding new_id
new_id_fresh f a u l h c = new_between_fresh first_id limit f a u l h c
