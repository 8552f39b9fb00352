-- ===== src/Security/Blowfish/Crypt/Text.antt =====
-- Lemmas on the characters of a text and on its parts.
use lotospp.Base.{
  ℕ, zero, suc, ◌+◌, ◌<◌, ◌≤◌, ◌≡◌, refl, ap, ◌∙◌, Bool, true, List, [], ◌∷◌, ◌++◌, length, take,
  drop, all, arith,
}
use lotospp.Security.Blowfish.Encoding.{entry}

pub entry-append : (xs ys : List ℕ) (i : ℕ) → i < length xs → entry (xs ++ ys) i ≡ entry xs i
entry-append [] ys i l = absurd (omega arith)
entry-append (x ∷ xs) ys zero l = refl
entry-append (x ∷ xs) ys (suc i) l = entry-append xs ys i (omega arith)

pub entry_at : (xs : List ℕ) (y : ℕ) (ys : List ℕ) → entry (xs ++ y ∷ ys) (length xs) ≡ y
entry_at [] y ys = refl
entry_at (x ∷ xs) y ys = entry_at xs y ys

pub drop-append_short :
    (n : ℕ) (xs ys : List ℕ) → n ≤ length xs → drop n (xs ++ ys) ≡ drop n xs ++ ys
drop-append_short zero xs ys l = refl
drop-append_short (suc n) [] ys l = absurd (omega arith)
drop-append_short (suc n) (x ∷ xs) ys l = drop-append_short n xs ys (omega arith)

pub take_all : (xs ys : List ℕ) → take (length xs) (xs ++ ys) ≡ xs
take_all [] ys = refl
take_all (x ∷ xs) ys = ap (x ∷◌) (take_all xs ys)

-- A text around one of its characters.
pub split_at :
    (n : ℕ) (xs : List ℕ)
    → n < length xs
    → (pre : List ℕ) × (rest : List ℕ) × (length pre ≡ n) × (xs ≡ pre ++ entry xs n ∷ rest)
split_at n [] l = absurd (omega arith)
split_at zero (x ∷ xs) l = ([], xs, refl, refl)
split_at (suc n) (x ∷ xs) l =
    let (pre, rest, m, e) = split_at n xs (omega arith) in (x ∷ pre, rest, omega arith, ap (x ∷◌) e)

pub entry-drop : (m : ℕ) (xs : List ℕ) (j : ℕ) → entry (drop m xs) j ≡ entry xs (m + j)
entry-drop zero xs j = ap (entry xs) (omega arith)
entry-drop (suc m) [] j = refl
entry-drop (suc m) (x ∷ xs) j =
    let n : suc (m + j) ≡ suc m + j = omega arith in entry-drop m xs j ∙ ap (entry (x ∷ xs)) n

pub all-take :
    (p : ℕ → Bool) (n : ℕ) (xs : List ℕ) (j : ℕ)
    → all p (take n xs) ≡ true
    → j < n
    → j < length xs
    → p (entry xs j) ≡ true
all-take p zero xs j h l m = absurd (omega arith)
all-take p (suc n) [] j h l m = absurd (omega arith)
all-take p (suc n) (x ∷ xs) zero h l m = ground arith
all-take p (suc n) (x ∷ xs) (suc j) h l m =
    all-take p n xs j (ground arith) (omega arith) (omega arith)
