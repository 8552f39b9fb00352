-- ===== src/Strings/Misc.antt =====
-- The functions of src/Strings/misc.cpp. A text is the list of its bytes, and a `char` is signed.
pub mod Clean
mod Tests
use lotospp.Base.{ℕ, Bool, true, false, List, [], ◌∷◌, ◌==◌, if◌then◌else◌, ◌||◌, char_lt}

pub has_whitespace : List ℕ → Bool
has_whitespace [] = false
has_whitespace (ch ∷ str) = char_lt ch 33 || has_whitespace str

-- What `str` is after the call.
pub terminate : List ℕ → List ℕ
terminate [] = []
terminate (ch ∷ str) = if char_lt ch 32 then [] else ch ∷ terminate str

-- What `str` is after the call; the loop ends at a NUL, and behind the last byte stands one. The
-- assignment in the inner `switch` stands behind its `break` and under no label, so it never runs.
pub clean_string : List ℕ → List ℕ
clean_string [] = []
clean_string (c ∷ []) = if c == b'%' then b' ' ∷ [] else c ∷ []
clean_string (c ∷ d ∷ str) =
    let pair = c ∷ d ∷ clean_string str in
    let rest = clean_string (d ∷ str) in
    if c == 0
    then c ∷ d ∷ str
    else if c == b'%'
    then if d == b'%' then pair else b' ' ∷ rest
    else c ∷ rest
