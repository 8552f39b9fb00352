-- ===== src/Common/User/Print.antt =====
-- The loop of User::uPrintf of src/Common/User.cpp over the formatted text, which it sends to the
-- client: line ends for telnet, and the slash that once opened a colour code.
use lotospp.Base.{ℕ, ◌≡◌, refl, Bool, true, false, List, [], ◌∷◌, ◌==◌, if◌then◌else◌, arith}

-- `pcesc` says that a slash was read and is not written yet. The loop ends at a NUL.
unfoldable pub print_loop : Bool → List ℕ → List ℕ
print_loop pcesc [] = []
print_loop pcesc (c ∷ str) =
    let newline = b'\r' ∷ b'\n' ∷ print_loop false str in
    let plain = c ∷ print_loop false str in
    let slash = print_loop true str in
    if c == 0
    then []
    else if c == b'\n'
    then if pcesc then b'/' ∷ newline else newline
    else if c == b'/'
    then if pcesc then b'/' ∷ slash else slash
    else if pcesc
    then b'/' ∷ plain
    else plain

-- The text that uWrite is given.
unfoldable pub print_text : List ℕ → List ℕ
unfolding print_loop
print_text = print_loop false

-- A text as telnet wants it: every line feed behind a carriage return.
unfoldable pub crlf : List ℕ → List ℕ
crlf [] = []
crlf (c ∷ str) = let rest = crlf str in if c == b'\n' then b'\r' ∷ b'\n' ∷ rest else c ∷ rest

-- What stands before the first NUL.
unfoldable pub until_nul : List ℕ → List ℕ
until_nul [] = []
until_nul (c ∷ str) = if c == 0 then [] else c ∷ until_nul str

-- A text without the slash that ends it, if one does.
unfoldable pub drop_last_slash : List ℕ → List ℕ
drop_last_slash [] = []
drop_last_slash (c ∷ []) = if c == b'/' then [] else c ∷ []
drop_last_slash (c ∷ d ∷ str) = c ∷ drop_last_slash (d ∷ str)

-- With a slash held back the loop writes as if that slash still stood before the text.
print_loop-pending : (str : List ℕ) → print_loop true str ≡ print_loop false (b'/' ∷ str)
unfolding print_loop
print_loop-pending str = refl

drop_last_slash-plain :
    (c : ℕ) (str : List ℕ)
    → (c == b'/') ≡ false
    → drop_last_slash (c ∷ str) ≡ c ∷ drop_last_slash str
unfolding drop_last_slash
drop_last_slash-plain c [] e = ground arith
drop_last_slash-plain c (d ∷ str) e = refl

print_loop_lem :
    (str : List ℕ)
    → (print_loop false str ≡ crlf (drop_last_slash (until_nul str)))
      × (print_loop true str ≡ crlf (drop_last_slash (b'/' ∷ until_nul str)))
unfolding print_loop crlf until_nul drop_last_slash
print_loop_lem [] = (refl, refl)
print_loop_lem (c ∷ str) =
    let p = print_loop_lem str in let q = drop_last_slash-plain c (until_nul str) in ground arith

-- For every text, uPrintf writes what stands before its first NUL, without the slash that ends it, if
-- one does, and with a carriage return before each line feed.
pub print_text_lem : (str : List ℕ) → print_text str ≡ crlf (drop_last_slash (until_nul str))
unfolding print_text
print_text_lem str = (print_loop_lem str).0
