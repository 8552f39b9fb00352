-- ===== src/Security/Blowfish/Crypt/Setting.antt =====
-- What BF_crypt of src/Security/Blowfish.cpp reads of its setting, and what it writes back.
use lotospp.Base.{
  ℕ, suc, ◌+◌, ◌<◌, ◌≡◌, refl, sym, subst, ◌∙◌, Bool, true, false, ◌&&◌, not, List, ◌∷◌, ◌++◌, ◌==◌,
  bit_and, char_lt, length, take, drop, holds_to-at, length-append, length-drop, arith, inl, inr,
}
use lotospp.Security.Blowfish.Encoding.{digit, dollar, bad, entry, safe_atoi64, decode}
use lotospp.Security.Blowfish.Encoding.Prefix.{Digit-cases, decode_alike}
use lotospp.Security.Blowfish.Crypt.{
  hashed, is_setting, subtype_flags, rounds_of, canonical, write_output,
}
use lotospp.Security.Blowfish.Crypt.Text.{entry-append, entry_at, drop-append_short, take_all}

-- A digit, written in canonical form, is a digit with the same upper two bits.
abbrev canonical_test : ℕ → Bool
canonical_test c = elim (safe_atoi64 c) [
  | digit v ↦ elim (safe_atoi64 (canonical c)) [
    | digit w ↦
        (bit_and v 0x30 == bit_and w 0x30)
        && (canonical (canonical c) == canonical c)
        && not (char_lt c 0x20)
        && not (char_lt (canonical c) 0x20)
    | dollar ↦ false
    | bad ↦ false
  ]
  | dollar ↦ true
  | bad ↦ true
]

canonical_table : (c : ℕ) → c < 256 → canonical_test c ≡ true
unfolding safe_atoi64 canonical
canonical_table c l = holds_to-at 256 canonical_test refl c l

-- What the canonical form of a digit is.
pub canonical_lem :
    (c v : ℕ)
    → c < 256
    → safe_atoi64 c ≡ digit v
    → (w : ℕ) × (safe_atoi64 (canonical c) ≡ digit w)
      × (bit_and v 0x30 ≡ bit_and w 0x30)
      × (canonical (canonical c) ≡ canonical c)
      × (char_lt c 0x20 ≡ false)
      × (char_lt (canonical c) 0x20 ≡ false)
canonical_lem c v l e =
    let t = canonical_table c l in
    elim (Digit-cases (safe_atoi64 (canonical c))) [
      | inl (w, e') ↦ (w, e', ground arith, ground arith, ground arith, ground arith)
      | inr other ↦ absurd (ground arith)
    ]

-- The header of a setting decides what the first steps do.
pub same_header :
    (pre t t' : List ℕ)
    → length pre ≡ 28
    → (is_setting (pre ++ t) ≡ is_setting (pre ++ t'))
      × (rounds_of (pre ++ t) ≡ rounds_of (pre ++ t'))
      × (subtype_flags (pre ++ t) ≡ subtype_flags (pre ++ t'))
unfolding is_setting rounds_of subtype_flags
same_header pre t t' l =
    let e : (i : ℕ) → i < 28 → entry (pre ++ t) i ≡ entry (pre ++ t') i =
      λ i k. entry-append pre t i (omega arith) ∙ sym (entry-append pre t' i (omega arith)) in
    (
      rw (
        e 0 (omega arith),
        e 1 (omega arith),
        e 2 (omega arith),
        e 3 (omega arith),
        e 4 (omega arith),
        e 5 (omega arith),
        e 6 (omega arith),
      ),
      rw (e 4 (omega arith), e 5 (omega arith)),
      rw (e 2 (omega arith)),
    )

pub write_output_at :
    (pre : List ℕ) (c : ℕ) (rest text : List ℕ)
    → length pre ≡ 28
    → char_lt c 0x20 ≡ false
    → write_output (pre ++ c ∷ rest) text ≡ hashed (pre ++ canonical c ∷ text)
unfolding write_output
write_output_at pre c rest text l h =
    let e : entry (pre ++ c ∷ rest) 28 ≡ c =
      subst (λ n. entry (pre ++ c ∷ rest) n ≡ c) l (entry_at pre c rest) in
    let t : take 28 (pre ++ c ∷ rest) ≡ pre =
      subst (λ n. take n (pre ++ c ∷ rest) ≡ pre) l (take_all pre (c ∷ rest)) in
    let n : length (pre ++ c ∷ rest) ≡ length pre + suc (length rest) =
      length-append pre (c ∷ rest) in
    ground arith

-- The salt of a setting is decoded from its characters 7 to 28, and the last may be in canonical form.
pub same_salt :
    (pre : List ℕ) (c c' : ℕ) (rest rest' : List ℕ) (v w : ℕ)
    → length pre ≡ 28
    → safe_atoi64 c ≡ digit v
    → safe_atoi64 c' ≡ digit w
    → bit_and v 0x30 ≡ bit_and w 0x30
    → decode 16 (drop 7 (pre ++ c ∷ rest)) ≡ decode 16 (drop 7 (pre ++ c' ∷ rest'))
same_salt pre c c' rest rest' v w l e e' h = rw (
  drop-append_short 7 pre (c ∷ rest) (omega arith),
  drop-append_short 7 pre (c' ∷ rest') (omega arith),
  decode_alike 5 (drop 7 pre) c c' rest rest' v w (omega (arith, length-drop 7 pre)) e e' h,
)
