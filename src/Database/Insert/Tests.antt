-- ===== src/Database/Insert/Tests.antt =====
-- The buffered INSERT at concrete inputs.
use lotospp.Base.{ℕ, zero, suc, ◌≡◌, refl, Bool, true, List, [], ◌∷◌, ◌++◌, length, codes, arith}
use lotospp.Database.Insert.{Insert, set_query, bracketed, execute, add_row}
use lotospp.Database.Insert.Rows.{more_rows, add_rows, execute-add_rows, last_row_lost}

abbrev accept : List ℕ → Bool
accept query = true

abbrev empty : Insert
empty = record { multi_line = true; rows = 0; query = []; buf = [] }

execute-add_rows_example :
    (i' : Insert) × (add_rows accept
        (set_query empty (codes "INSERT "))
        (codes "1,2" ∷ codes "3,4" ∷ [])
      ≡ (i', []))
    × ((execute accept i').executed
        ≡ (codes "INSERT " ++ (bracketed (codes "1,2") ++ more_rows (codes "3,4" ∷ []))) ∷ [])
    × ((execute accept i').result ≡ true)
unfolding more_rows
execute-add_rows_example =
    execute-add_rows accept empty (codes "INSERT ") (codes "1,2") (codes "3,4" ∷ []) refl
      (omega arith)

abbrev copies : ℕ → List ℕ
copies zero = []
copies (suc n) = b'x' ∷ copies n

length-copies : (n : ℕ) → length (copies n) ≡ n
length-copies zero = refl
length-copies (suc n) = omega (arith, length-copies n)

abbrev full : Insert
full = record { multi_line = true; rows = 1; query = codes "INSERT "; buf = copies 9000 }

last_row_lost_example :
    ((add_row accept full (codes "9")).executed ≡ (full.query ++ full.buf) ∷ [])
    × ((add_row accept full (codes "9")).insert.buf ≡ bracketed (codes "9"))
    × ((execute accept (add_row accept full (codes "9")).insert).executed ≡ [])
    × ((execute accept (add_row accept full (codes "9")).insert).result ≡ true)
last_row_lost_example =
    last_row_lost accept full (codes "9") refl (omega (arith, length-copies 9000)) (omega arith)
      refl
