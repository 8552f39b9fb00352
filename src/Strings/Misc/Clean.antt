-- ===== src/Strings/Misc/Clean.antt =====
-- What cleanString and terminate of src/Strings/misc.cpp achieve.
use lotospp.Base.{
  ℕ, ◌≡◌, refl, all, inl, inr, Bool-cases, ◌++◌, Bool, true, false, not, ◌&&◌, ◌||◌, List, [], ◌∷◌,
  ◌==◌, if◌then◌else◌, length, char_lt, arith,
}
use lotospp.Strings.Misc.{terminate, clean_string}

-- Whether a format has no directive but `%%` up to its NUL; `pending` after a percent sign that opens
-- a directive.
unfoldable pub no_directive : Bool → List ℕ → Bool
no_directive pending [] = not pending
no_directive pending (c ∷ str) =
    let closed = c == b'%' && no_directive false str in
    let opened = no_directive (c == b'%') str in
    if pending then closed else if c == 0 then true else opened

unfoldable pub has_percent : List ℕ → Bool
has_percent [] = false
has_percent (c ∷ str) = c == b'%' || has_percent str

-- A cleaned text, used as a format, takes no argument: it has no directive but `%%`.
pub no_directive-clean_string : (str : List ℕ) → no_directive false (clean_string str) ≡ true
unfolding no_directive clean_string
no_directive-clean_string [] = refl
no_directive-clean_string (c ∷ []) = ground arith
no_directive-clean_string (c ∷ d ∷ str) =
    ground (arith, no_directive-clean_string str, no_directive-clean_string (d ∷ str))

-- Cleaning keeps the length of a text, and a text that was cleaned stays as it is.
length-clean_string : (str : List ℕ) → length (clean_string str) ≡ length str
unfolding clean_string
length-clean_string [] = refl
length-clean_string (c ∷ []) = ground arith
length-clean_string (c ∷ d ∷ str) =
    ground (arith, length-clean_string str, length-clean_string (d ∷ str))

-- A text that is safe as a format is left alone, control codes included.
pub clean_string_safe : (str : List ℕ) → no_directive false str ≡ true → clean_string str ≡ str
unfolding no_directive clean_string
clean_string_safe [] h = refl
clean_string_safe (c ∷ []) h = ground arith
clean_string_safe (c ∷ d ∷ str) h =
    ground (arith, clean_string_safe str, clean_string_safe (d ∷ str))

-- Cleaning keeps the length of a text, and a second cleaning changes nothing.
pub clean_string_idem :
    (str : List ℕ)
    → (length (clean_string str) ≡ length str)
      × (clean_string (clean_string str) ≡ clean_string str)
clean_string_idem str =
    (length-clean_string str, clean_string_safe (clean_string str) (no_directive-clean_string str))

-- The end of a text, or a control code with what follows it.
abbrev pub at_control : List ℕ → Bool
at_control [] = true
at_control (ch ∷ str) = char_lt ch 32

-- `terminate` leaves the longest prefix of the text that holds no control code.
pub terminate_prefix :
    (str : List ℕ)
    → (rest : List ℕ) × (str ≡ terminate str ++ rest)
      × (all (λ ch. not (char_lt ch 32)) (terminate str) ≡ true)
      × (at_control rest ≡ true)
unfolding terminate
terminate_prefix [] = ([], refl, refl, refl)
terminate_prefix (c ∷ str) = elim (Bool-cases (char_lt c 32)) [
  | inl control ↦ (c ∷ str, ground arith, ground arith, control)
  | inr plain ↦ let (rest, e, p, a) = terminate_prefix str in (rest, ground arith, ground arith, a)
]
