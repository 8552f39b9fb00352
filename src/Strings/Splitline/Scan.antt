-- ===== src/Strings/Splitline/Scan.antt =====
-- Where the scans of src/Strings/Splitline.cpp stop, and that the loop of `parse` ends.
use lotospp.Base.{
  ℕ, zero, suc, ◌+◌, ◌≤◌, ◌<◌, ◌≡◌, refl, ◌⊎◌, inl, inr, List, [], ◌∷◌, some, ◌==◌, length, drop,
  Bool-cases, length-drop, arith,
}
use lotospp.Strings.Splitline.{
  Splitline, Found, reset, skip_space, scan_plain, scan_quoted, scan_from_quote, get_word_at,
  get_word, add_word, parse_loop, parse,
}

skip_space_bounds :
    (rest : List ℕ) (o : ℕ) → (o ≤ skip_space rest o) × (skip_space rest o ≤ o + length rest)
unfolding skip_space
skip_space_bounds [] o = omega arith
skip_space_bounds (c ∷ rest) o = ground (arith, skip_space_bounds rest (o + 1))

scan_plain_bounds :
    (rest : List ℕ) (o : ℕ) → (o ≤ scan_plain rest o) × (scan_plain rest o ≤ o + length rest)
unfolding scan_plain
scan_plain_bounds [] o = omega arith
scan_plain_bounds (c ∷ rest) o = ground (arith, scan_plain_bounds rest (o + 1))

scan_quoted_bounds :
    (rest : List ℕ) (o p : ℕ)
    → (o ≤ (scan_quoted rest o p).0) × ((scan_quoted rest o p).0 ≤ o + length rest)
unfolding scan_quoted
scan_quoted_bounds [] o p = omega arith
scan_quoted_bounds (c ∷ rest) o p = ground (arith, scan_quoted_bounds rest (o + 1) c)

scan_from_quote_bounds :
    (rest : List ℕ) (o : ℕ)
    → (o ≤ (scan_from_quote rest o).0) × ((scan_from_quote rest o).0 ≤ o + length rest)
unfolding scan_from_quote
scan_from_quote_bounds [] o = omega arith
scan_from_quote_bounds (c ∷ rest) o = scan_quoted_bounds (c ∷ rest) o c

-- No word, or a word that begins at or behind `o1` and ends behind its begin, within the line.
abbrev pub InLine : ℕ → ℕ → Found → Type 0
InLine o1 len f = (f.o2 ≡ 0) ⊎ ((o1 ≤ f.o1) × (f.o1 < f.o2) × (f.o2 ≤ len))

get_word_at_bounds :
    (rest : List ℕ) (o1 : ℕ) (before : Found)
    → InLine o1 (o1 + length rest) (get_word_at rest o1 before)
unfolding get_word_at
get_word_at_bounds [] o1 before = inl refl
get_word_at_bounds (c ∷ rest) o1 before =
    ground (arith, scan_from_quote_bounds rest (o1 + 1), scan_plain_bounds (c ∷ rest) o1)

pub get_word_bounds :
    (s : Splitline) (o1 : ℕ) → o1 ≤ length s.line → InLine o1 (length s.line) (get_word s o1)
unfolding get_word
get_word_bounds s o1 h =
    let at : ℕ = skip_space (drop o1 s.line) o1 in
    ground (
      arith,
      skip_space_bounds (drop o1 s.line) o1,
      length-drop o1 s.line,
      length-drop at s.line,
      get_word_at_bounds (drop at s.line) at
          (record { o1 = at; o2 = 0; start_quote = s.start_quote; end_quote = s.end_quote }),
    )

parse_loop_total :
    (fuel : ℕ) (s : Splitline) (o1 : ℕ)
    → o1 ≤ length s.line
    → length s.line < o1 + fuel
    → (s' : Splitline) × (parse_loop fuel s o1 ≡ some s')
unfolding parse_loop add_word
parse_loop_total zero s o1 h f = absurd (omega arith)
parse_loop_total (suc fuel) s o1 h f = elim (Bool-cases ((get_word s o1).o2 == 0)) [
  | inl done ↦ (
    record s { start_quote = (get_word s o1).start_quote; end_quote = (get_word s o1).end_quote },
    ground arith,
  )
  | inr more ↦
      let s' : Splitline =
        add_word
          (record s {
            start_quote = (get_word s o1).start_quote;
            end_quote = (get_word s o1).end_quote;
          })
          (get_word s o1).o1 (get_word s o1).o2 in
      ground (arith, get_word_bounds s o1, parse_loop_total fuel s' (get_word s o1).o2)
]

-- Parsing a line ends: there is fuel enough for every line.
pub parse_total : (s : Splitline) (line : List ℕ) → (s' : Splitline) × (parse s line ≡ some s')
unfolding parse
parse_total s [] = (reset s, refl)
parse_total s (c ∷ line) =
    parse_loop_total (suc (length (c ∷ line))) (record (reset s) { line = c ∷ line }) 0
      (omega arith) (omega arith)
