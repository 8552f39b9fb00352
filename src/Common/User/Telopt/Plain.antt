-- ===== src/Common/User/Telopt/Plain.antt =====
-- The loop of parseTelopt of src/Common/User.cpp on options without a sub option.
use lotospp.Base.{
  ℕ, zero, suc, ◌<◌, ◌≡◌, refl, sym, subst, inl, inr, Bool, true, false, not, List, [], ◌∷◌, some,
  ◌==◌, drop, all, Bool-cases, arith,
}
use lotospp.Common.User.Telopt.{
  telcmd_sb, Telopt, shifted, byte_at, say, on_will, on_wont, on_do, on_dont, command, turn, erase,
  at_iac, finish, parse_telopt,
}
use lotospp.Common.User.Telopt.Rounds.{is_stuck, turn-shift, Turn-cases, erased}

abbrev pub no_sb : List ℕ → Bool
no_sb = all (λ c. not (c == telcmd_sb))

no_sb-byte_at : (buff : List ℕ) (i : ℕ) → no_sb buff ≡ true → (byte_at buff i == telcmd_sb) ≡ false
unfolding byte_at
no_sb-byte_at [] i h = refl
no_sb-byte_at (x ∷ xs) zero h = ground arith
no_sb-byte_at (x ∷ xs) (suc i) h = ground (arith, no_sb-byte_at xs i)

no_sb-drop : (n : ℕ) (buff : List ℕ) → no_sb buff ≡ true → no_sb (drop n buff) ≡ true
no_sb-drop zero buff h = h
no_sb-drop (suc n) [] h = refl
no_sb-drop (suc n) (x ∷ xs) h = no_sb-drop n xs (ground arith)

-- Such a turn is not stuck and leaves the bytes as they are.
turn-no_sb :
    (terms : List ℕ → Bool) (t : Telopt) (n : ℕ) (t' : Telopt)
    → no_sb t.buff ≡ true
    → turn terms t ≡ shifted n t'
    → (is_stuck t ≡ false) × (t'.buff ≡ t.buff)
unfolding is_stuck turn command on_will on_wont on_do on_dont say
turn-no_sb terms t n t' h e = let b = no_sb-byte_at t.buff 1 h in (ground arith, ground arith)

-- On a buffer without the byte SB the loop of parseTelopt returns within one turn more than the
-- buffer's bytes.
pub parse_telopt_returns :
    (terms : List ℕ → Bool) (fuel : ℕ) (t : Telopt)
    → t.bpos < fuel
    → no_sb t.buff ≡ true
    → (r : Telopt × Bool) × (parse_telopt terms fuel t ≡ some r)
unfolding parse_telopt erase
parse_telopt_returns terms zero t l h = absurd (omega arith)
parse_telopt_returns terms (suc fuel) t l h = elim (Bool-cases (at_iac t)) [
  | inr other ↦ ((finish t, true), ground arith)
  | inl iac ↦ elim (Turn-cases (turn terms t)) [
    | inl (t', e) ↦ ((t', false), ground arith)
    | inr (n, t', e) ↦
        let (free, same) = turn-no_sb terms t n t' h e in
        elim (turn-shift terms t n t' iac e) [
          | inl stuck ↦ absurd (ground arith)
          | inr (two, fits, len) ↦
              let d : no_sb (drop n t'.buff) ≡ true =
                subst (λ b. no_sb (drop n b) ≡ true) (sym same) (no_sb-drop n t.buff h) in
              let (r, e') =
                parse_telopt_returns terms fuel (erase n t') (erased n t' t fuel two fits len l)
                  d in
              (r, ground arith)
        ]
  ]
]
