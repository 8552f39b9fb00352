-- ===== src/Strings/Splitline/Pointers.antt =====
-- The word pointers of src/Strings/Splitline.cpp from one line to the next: `reset` clears the words
-- and leaves the pointers.
use lotospp.Base.{
  ℕ, zero, suc, ◌≤◌, ◌≡◌, ◌≢◌, refl, ◌∙◌, inl, inr, List, [], ◌∷◌, ◌++◌, some, ◌==◌, length, drop,
  get_elem?, Bool-cases, arith, append_assoc, append-nil,
}
use lotospp.Strings.Splitline.{Splitline, reset, get_word, add_word, parse_loop, parse, wordptr}

get_elem?-append :
    (ps qs : List ℕ) (i p : ℕ) → get_elem? ps i ≡ some p → get_elem? (ps ++ qs) i ≡ some p
get_elem?-append [] qs i p h = cc
get_elem?-append (q ∷ ps) qs zero p h = h
get_elem?-append (q ∷ ps) qs (suc i) p h = get_elem?-append ps qs i p h

parse_loop_extends :
    (fuel : ℕ) (s : Splitline) (o1 : ℕ) (s' : Splitline)
    → parse_loop fuel s o1 ≡ some s'
    → (ps : List ℕ) × (s'.line ≡ s.line) × (s'.word_ptr ≡ s.word_ptr ++ ps)
unfolding parse_loop add_word
parse_loop_extends zero s o1 s' h = cc
parse_loop_extends (suc fuel) s o1 s' h = elim (Bool-cases ((get_word s o1).o2 == 0)) [
  | inl done ↦ ([], ground arith, ground (arith, append-nil s.word_ptr))
  | inr more ↦
      let s₂ : Splitline =
        add_word
          (record s {
            start_quote = (get_word s o1).start_quote;
            end_quote = (get_word s o1).end_quote;
          })
          (get_word s o1).o1 (get_word s o1).o2 in
      let (ps, l, e) = parse_loop_extends fuel s₂ (get_word s o1).o2 s' (ground arith) in
      ((get_word s o1).o1 ∷ ps, l, e ∙ append_assoc s.word_ptr ((get_word s o1).o1 ∷ []) ps)
]

-- A pointer that the object holds from an earlier line outlives the parsing of a new, non-empty
-- line: if it is a position of the new line, `wordptr` at its index returns the new line from that
-- old position on.
pub wordptr-parse :
    (s s' : Splitline) (line : List ℕ) (i p : ℕ)
    → line ≢ []
    → get_elem? s.word_ptr i ≡ some p
    → p ≤ length line
    → parse s line ≡ some s'
    → wordptr s' i ≡ some (drop p line)
unfolding parse wordptr reset
wordptr-parse s s' [] i p n h l e = absurd (n refl)
wordptr-parse s s' (c ∷ line) i p n h l e =
    let (ps, same, grown) =
      parse_loop_extends (suc (length (c ∷ line))) (record (reset s) { line = c ∷ line }) 0 s' e in
    ground (arith, same, grown, get_elem?-append s.word_ptr ps i p)
