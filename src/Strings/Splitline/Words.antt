-- ===== src/Strings/Splitline/Words.antt =====
-- `parse` of src/Strings/Splitline.cpp on a line without quotes: its words, and its pointers.
use Prim.{⊥}
use lotospp.Base.{
  ℕ, zero, suc, ◌+◌, ◌-◌, ◌≤◌, ◌<◌, ◌≡◌, refl, ap, inl, inr, false, List, [], ◌∷◌, ◌++◌, Option,
  some, length, take, drop, arith, append_assoc, append-nil,
}
use lotospp.Strings.Splitline.{
  Splitline, Found, substr, reset, get_word, add_word, parse_loop, parse,
}
use lotospp.Strings.Splitline.Scan.{get_word_bounds}
use lotospp.Strings.Splitline.Plain.{has_quote, words, get_word-Finds}

-- Each pointer stands at its word in the line.
abbrev pub Points : List ℕ → List (List ℕ) → List ℕ → Type 0
Points line [] [] = Unit {0}
Points line [] (p ∷ ps) = ⊥
Points line (w ∷ ws) [] = ⊥
Points line (w ∷ ws) (p ∷ ps) = (take (length w) (drop p line) ≡ w) × Points line ws ps

Points-append :
    (line : List ℕ) (ws : List (List ℕ)) (ps : List ℕ) (w : List ℕ) (p : ℕ)
    → Points line ws ps
    → take (length w) (drop p line) ≡ w
    → Points line (ws ++ w ∷ []) (ps ++ p ∷ [])
Points-append line [] [] w p h e = (e, tt)
Points-append line [] (q ∷ ps) w p h e = absurd h
Points-append line (v ∷ ws) [] w p h e = absurd h
Points-append line (v ∷ ws) (q ∷ ps) w p (a, h) e = (a, Points-append line ws ps w p h e)

-- What the loop does to the words and the pointers from index `o1` on.
abbrev Splits : Splitline → ℕ → Option Splitline → Type 0
Splits s o1 r =
    (s' : Splitline) × (r ≡ some s')
    × (s'.line ≡ s.line)
    × (s'.word ≡ s.word ++ words (drop o1 s.line))
    × (Points s.line s.word s.word_ptr → Points s.line s'.word s'.word_ptr)

parse_loop-Splits :
    (fuel : ℕ) (s : Splitline) (o1 : ℕ)
    → has_quote s.line ≡ false
    → o1 ≤ length s.line
    → length s.line < o1 + fuel
    → Splits s o1 (parse_loop fuel s o1)
unfolding parse_loop add_word
parse_loop-Splits zero s o1 q h f = absurd (omega arith)
parse_loop-Splits (suc fuel) s o1 q h f = elim (get_word-Finds s o1 q h) [
  | inl (done, w) ↦ (s₁, ground arith, refl, rw (w, append-nil) refl, λ p. p)
  | inr (lt, le, plain, w, len) ↦
      let (s', e, l, ws, ps) =
        parse_loop-Splits fuel s₂ f₀.o2 q le (omega (arith, get_word_bounds s o1 h)) in
      (
        s',
        ground (arith, e),
        l,
        rw (ws, plain, w) (append_assoc s.word (substr s.line f₀.o1 (f₀.o2 - f₀.o1) ∷ []) _),
        λ p. ps (
            rw plain (
              Points-append s.line s.word s.word_ptr _ f₀.o1 p
                (ap (λ k. take k (drop f₀.o1 s.line)) len))),
      )
]
  where
    f₀ : Found
    f₀ = get_word s o1

    s₁ : Splitline
    s₁ = record s { start_quote = f₀.start_quote; end_quote = f₀.end_quote }

    s₂ : Splitline
    s₂ = add_word s₁ f₀.o1 f₀.o2

-- On a line without quotes `parse` ends, its words are the maximal runs of bytes that are no white
-- space, and for an object that held no pointers each pointer stands at its word.
pub parse-words :
    (s : Splitline) (line : List ℕ)
    → has_quote line ≡ false
    → (s' : Splitline) × (parse s line ≡ some s')
      × (s'.word ≡ words line)
      × (s.word_ptr ≡ [] → Points line s'.word s'.word_ptr)
unfolding parse reset words
parse-words s [] q = (reset s, refl, refl, λ e. rw e tt)
parse-words s (c ∷ line) q =
    let (s', e, l, ws, ps) =
      parse_loop-Splits (suc (length (c ∷ line))) (record (reset s) { line = c ∷ line }) 0 q
        (omega arith) (omega arith) in
    (s', e, ws, λ e. ps (rw e tt))
