-- ===== src/Common/AutoId/Tests.antt =====
-- Ids at concrete inputs.
use lotospp.Base.{ℕ, ◌≤◌, ◌≡◌, refl, true, false, some, ◌==◌, if◌then◌else◌, arith}
use lotospp.Common.AutoId.{AutoId, first_id, limit, search, new_id, set_id}
use lotospp.Common.AutoId.Fresh.{new_id_fresh}

-- All ids but 5000 are taken.
abbrev crowded : AutoId
crowded = record { count = 4990; used = λ i. if i == 5000 then false else true }

wraps_to_first : search 10 12 3 (λ i. if i == 10 then false else true) 12 ≡ some 10
unfolding search
wraps_to_first = refl

user_id : set_id 1001 ≡ 268436457
unfolding set_id
user_id = refl

new_id_fresh_example :
    (a' : AutoId) × (id : ℕ) × (new_id crowded ≡ some (a', id))
    × (crowded.used id ≡ false)
    × (a'.used ≡ (λ j. if j == id then true else crowded.used j))
    × (a'.count ≡ id)
    × (first_id ≤ id)
    × (id ≤ limit)
new_id_fresh_example = new_id_fresh 5000 crowded refl (omega arith) (omega arith) (omega arith)
