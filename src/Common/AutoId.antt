-- ===== src/Common/AutoId.antt =====
-- The ids of creatures: src/Common/AutoID.h, and setID of src/Common/Creature.cpp.
pub mod Fresh
mod Tests
use lotospp.Base.{
  ℕ, zero, suc, ◌+◌, ◌-◌, Bool, true, false, List, [], ◌∷◌, Option, none, some, leb, ◌==◌,
  if◌then◌else◌, bit_or,
}

-- The static members: the last id given, and the set of the ids in use as its membership test.
pub record AutoId : Type 0 where
  pub count : ℕ
  pub used : ℕ → Bool

abbrev pub first_id : ℕ
first_id = 1000

abbrev pub limit : ℕ
limit = 0xFFFFFF

-- The loop of the constructor; `none` means that the fuel ran out. The bounds are arguments.
pub search : ℕ → ℕ → ℕ → (ℕ → Bool) → ℕ → Option ℕ
search lo hi zero used count = none
search lo hi (suc fuel) used count =
    let next = search lo hi fuel used (if leb hi count then lo else count + 1) in
    if used count then next else some count

-- The count with which the loop begins.
pub advance : ℕ → ℕ → ℕ → ℕ
advance lo hi count = if leb hi (count + 1) then lo else count + 1

-- The constructor over ids from `lo` to `hi`: the members, and the new id.
pub new_between : ℕ → ℕ → AutoId → Option (AutoId × ℕ)
unfolding search advance
new_between lo hi a = elim (search lo hi (suc (hi - lo)) a.used (advance lo hi a.count)) [
  | none ↦ none
  | some id ↦ some (record { count = id; used = λ j. if j == id then true else a.used j }, id)
]

pub new_id : AutoId → Option (AutoId × ℕ)
unfolding new_between
new_id = new_between first_id limit

-- The destructor.
pub free_id : AutoId → ℕ → AutoId
free_id a id = record a { used = λ j. if j == id then false else a.used j }

-- Creature::setID for a user, whose idRange is 0x10000000.
pub set_id : ℕ → ℕ
set_id auto_id = bit_or auto_id 0x10000000
