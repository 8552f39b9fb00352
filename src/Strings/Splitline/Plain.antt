-- ===== src/Strings/Splitline/Plain.antt =====
-- getWord of src/Strings/Splitline.cpp on a line without quotes, against a splitter by recursion on
-- the bytes.
use lotospp.Base.{
  ℕ, zero, suc, ◌+◌, ◌-◌, ◌≤◌, ◌<◌, ◌≡◌, refl, sym, ap, ◌∙◌, ◌⊎◌, inl, inr, Bool, false, ◌||◌, List,
  [], ◌∷◌, ◌++◌, ◌==◌, if◌then◌else◌, length, take, drop, char_lt, Bool-cases, length-drop, arith,
  append_assoc, append-nil,
}
use lotospp.Strings.Splitline.{
  Splitline, Found, substr, skip_space, scan_plain, get_word_at, get_word,
}

unfoldable pub has_quote : List ℕ → Bool
has_quote [] = false
has_quote (c ∷ cs) = c == b'"' || has_quote cs

-- The maximal runs of bytes that are no white space; `run` is what was read of the current one.
unfoldable pub words_from : List ℕ → List ℕ → List (List ℕ)
words_from [] [] = []
words_from [] (r ∷ run) = (r ∷ run) ∷ []
words_from (c ∷ cs) [] = if char_lt c 33 then words_from cs [] else words_from cs (c ∷ [])
words_from (c ∷ cs) (r ∷ run) =
    if char_lt c 33 then (r ∷ run) ∷ words_from cs [] else words_from cs ((r ∷ run) ++ c ∷ [])

unfoldable pub words : List ℕ → List (List ℕ)
unfolding words_from
words cs = words_from cs []

-- How many bytes the two scans pass.
spaces : List ℕ → ℕ
spaces [] = 0
spaces (c ∷ cs) = if char_lt c 33 then suc (spaces cs) else 0

letters : List ℕ → ℕ
letters [] = 0
letters (c ∷ cs) = if char_lt c 33 then 0 else suc (letters cs)

skip_space-spaces : (cs : List ℕ) (o : ℕ) → skip_space cs o ≡ o + spaces cs
unfolding skip_space spaces
skip_space-spaces [] o = omega arith
skip_space-spaces (c ∷ cs) o = ground (arith, skip_space-spaces cs (o + 1))

scan_plain-letters : (cs : List ℕ) (o : ℕ) → scan_plain cs o ≡ o + letters cs
unfolding scan_plain letters
scan_plain-letters [] o = omega arith
scan_plain-letters (c ∷ cs) o = ground (arith, scan_plain-letters cs (o + 1))

words-spaces : (cs : List ℕ) → words (drop (spaces cs) cs) ≡ words cs
unfolding words spaces
words-spaces [] = refl
words-spaces (c ∷ cs) = ground (arith, words-spaces cs)

words_from-letters :
    (cs : List ℕ) (r : ℕ) (run : List ℕ)
    → words_from cs (r ∷ run) ≡ ((r ∷ run) ++ take (letters cs) cs) ∷ words (drop (letters cs) cs)
unfolding words letters
words_from-letters [] r run = rw append-nil
words_from-letters (c ∷ cs) r run = elim (Bool-cases (char_lt c 33)) [
  | inl space ↦ ground (arith, append-nil run)
  | inr letter ↦ ground (
    arith,
    words_from-letters cs r (run ++ c ∷ []),
    append_assoc run (c ∷ []) (take (letters cs) cs),
  )
]

-- A line that begins with a letter has its letters for its first word.
words-letters :
    (c : ℕ) (cs : List ℕ)
    → char_lt c 33 ≡ false
    → words (c ∷ cs) ≡ (c ∷ take (letters cs) cs) ∷ words (drop (letters cs) cs)
unfolding words
words-letters c cs h = ground (arith, words_from-letters cs c [])

drop-spaces :
    (cs : List ℕ)
    → (drop (spaces cs) cs ≡ [])
      ⊎ ((c : ℕ) × (rest : List ℕ) × (drop (spaces cs) cs ≡ c ∷ rest) × (char_lt c 33 ≡ false))
unfolding spaces
drop-spaces [] = inl refl
drop-spaces (c ∷ cs) = elim (Bool-cases (char_lt c 33)) [
  | inl space ↦ rw space (drop-spaces cs)
  | inr letter ↦ rw letter (inr (c, cs, refl, letter))
]

drop-nil : (n : ℕ) → drop {A = ℕ} n [] ≡ []
drop-nil zero = refl
drop-nil (suc n) = refl

drop-add : (m n : ℕ) (cs : List ℕ) → drop (m + n) cs ≡ drop n (drop m cs)
drop-add zero n cs = ap (λ k. drop k cs) (omega arith)
drop-add (suc m) n [] = drop-nil (suc m + n) ∙ sym (drop-nil n)
drop-add (suc m) n (c ∷ cs) = ap (λ k. drop k (c ∷ cs)) e ∙ drop-add m n cs
  where
    e : suc m + n ≡ suc (m + n)
    e = omega arith

has_quote-drop : (n : ℕ) (cs : List ℕ) → has_quote cs ≡ false → has_quote (drop n cs) ≡ false
unfolding has_quote
has_quote-drop zero cs h = h
has_quote-drop (suc n) [] h = refl
has_quote-drop (suc n) (c ∷ cs) h = ground (arith, has_quote-drop n cs)

-- What a call of getWord finds on a plain line, against the words of the line from there on.
abbrev pub Finds : List ℕ → ℕ → Found → Type 0
Finds line o1 f =
    ((f.o2 ≡ 0) × (words (drop o1 line) ≡ []))
    ⊎ ((f.o1 < f.o2)
        × (f.o2 ≤ length line)
        × (f.start_quote ≡ false)
        × (words (drop o1 line) ≡ substr line f.o1 (f.o2 - f.o1) ∷ words (drop f.o2 line))
        × (length (substr line f.o1 (f.o2 - f.o1)) ≡ f.o2 - f.o1))

spaces-le : (cs : List ℕ) → spaces cs ≤ length cs
unfolding spaces
spaces-le [] = omega arith
spaces-le (c ∷ cs) = ground (arith, spaces-le cs)

letters-le : (cs : List ℕ) → letters cs ≤ length cs
unfolding letters
letters-le [] = omega arith
letters-le (c ∷ cs) = ground (arith, letters-le cs)

length-take-letters : (cs : List ℕ) → length (take (letters cs) cs) ≡ letters cs
unfolding letters
length-take-letters [] = refl
length-take-letters (c ∷ cs) = ground (arith, length-take-letters cs)

-- At a letter `c` at index `at`, with `rest` behind it.
get_word_at-letter :
    (c at : ℕ) (rest : List ℕ) (before : Found)
    → (c == b'"') ≡ false
    → char_lt c 33 ≡ false
    → get_word_at (c ∷ rest) at before
      ≡ record { o1 = at; o2 = at + suc (letters rest); start_quote = false; end_quote = false }
unfolding get_word_at scan_plain
get_word_at-letter c at rest before q l = ground (arith, scan_plain-letters rest (at + 1))

-- Behind `n` spaces the line is empty, or goes on with a letter.
get_word-nothing :
    (s : Splitline) (o1 at : ℕ)
    → skip_space (drop o1 s.line) o1 ≡ at
    → drop at s.line ≡ []
    → get_word s o1
      ≡ record { o1 = at; o2 = 0; start_quote = s.start_quote; end_quote = s.end_quote }
unfolding get_word get_word_at
get_word-nothing s o1 at e d = rw (e, d, get_word_at)

get_word-letter :
    (s : Splitline) (o1 at c : ℕ) (rest : List ℕ)
    → skip_space (drop o1 s.line) o1 ≡ at
    → drop at s.line ≡ c ∷ rest
    → (c == b'"') ≡ false
    → char_lt c 33 ≡ false
    → get_word s o1
      ≡ record { o1 = at; o2 = at + suc (letters rest); start_quote = false; end_quote = false }
unfolding get_word
get_word-letter s o1 at c rest e d q l =
    rw (e, d)
      (get_word_at-letter c at rest
        (record { o1 = at; o2 = 0; start_quote = s.start_quote; end_quote = s.end_quote }) q l)

Finds-letter :
    (line : List ℕ) (o1 at c : ℕ) (rest : List ℕ)
    → words (drop o1 line) ≡ words (drop at line)
    → at ≤ length line
    → drop at line ≡ c ∷ rest
    → char_lt c 33 ≡ false
    → Finds line o1
        (record { o1 = at; o2 = at + suc (letters rest); start_quote = false; end_quote = false })
Finds-letter line o1 at c rest w h d l = inr (
  omega arith,
  omega (arith, letters-le rest, ap length d, length-drop at line),
  refl,
  rw (w, n, drop-add at (suc (letters rest)) line, d) (words-letters c rest l),
  rw (n, d) (ap suc (length-take-letters rest)),
)
  where
    n : at + suc (letters rest) - at ≡ suc (letters rest)
    n = omega arith

pub get_word-Finds :
    (s : Splitline) (o1 : ℕ)
    → has_quote s.line ≡ false
    → o1 ≤ length s.line
    → Finds s.line o1 (get_word s o1)
unfolding has_quote words
get_word-Finds s o1 q h = elim (drop-spaces (drop o1 s.line)) [
  | inl nothing ↦
      rw (get_word-nothing s o1 at e (d ∙ nothing)) (inl (refl, sym w ∙ ap words (d ∙ nothing)))
  | inr (c, rest, more, l) ↦
      rw (get_word-letter s o1 at c rest e (d ∙ more) (ground (arith, quote-free, d, more)) l)
        (Finds-letter s.line o1 at c rest (sym w) in_line (d ∙ more) l)
]
  where
    at : ℕ
    at = o1 + spaces (drop o1 s.line)

    e : skip_space (drop o1 s.line) o1 ≡ at
    e = skip_space-spaces (drop o1 s.line) o1

    d : drop at s.line ≡ drop (spaces (drop o1 s.line)) (drop o1 s.line)
    d = drop-add o1 (spaces (drop o1 s.line)) s.line

    w : words (drop at s.line) ≡ words (drop o1 s.line)
    w = rw d (words-spaces (drop o1 s.line))

    quote-free : has_quote (drop at s.line) ≡ false
    quote-free = has_quote-drop at s.line q

    in_line : at ≤ length s.line
    in_line = omega (arith, spaces-le (drop o1 s.line), length-drop o1 s.line)
