-- ===== src/Security/Blowfish/Encoding/Prefix.antt =====
-- How much of its text BF_decode of src/Security/Blowfish.cpp looks at.
use lotospp.Base.{
  ℕ, zero, suc, ◌+◌, ◌*◌, ◌/◌, ◌%◌, ◌≡◌, refl, sym, subst, ap, List, [], ◌∷◌, ◌++◌, some, length,
  bit_and, bit_or, arith, all, ◌⊎◌, inl, inr, Bool, true, false,
}
use lotospp.Security.Blowfish.Encoding.{
  Digit, digit, dollar, bad, safe_atoi64, byte1, byte2, byte3, prepend, use_digit, with_digit,
  decode,
}

byte1_alike : (u v w : ℕ) → bit_and v 0x30 ≡ bit_and w 0x30 → byte1 u v ≡ byte1 u w
unfolding byte1
byte1_alike u v w h = ap (λ m. bit_or (u * 4) (m / 16) % 256) h

-- Two digits and what follows them, where only the second digit's lower bits differ.
last_alike :
    (a c c' : ℕ) (rest rest' : List ℕ) (v w : ℕ)
    → safe_atoi64 c ≡ digit v
    → safe_atoi64 c' ≡ digit w
    → bit_and v 0x30 ≡ bit_and w 0x30
    → decode 1 (a ∷ c ∷ rest) ≡ decode 1 (a ∷ c' ∷ rest')
unfolding decode with_digit use_digit
last_alike a c c' rest rest' v w e e' h =
    let b : (u : ℕ) → byte1 u v ≡ byte1 u w = λ u. byte1_alike u v w h in grind arith

-- Three bytes from four characters, before texts that decode alike.
more_alike :
    (n a b c d : ℕ) (src src' : List ℕ)
    → decode n src ≡ decode n src'
    → decode (suc (suc (suc n))) (a ∷ b ∷ c ∷ d ∷ src)
      ≡ decode (suc (suc (suc n))) (a ∷ b ∷ c ∷ d ∷ src')
unfolding decode with_digit use_digit prepend
more_alike n a b c d src src' h = ground arith

-- Where two texts differ first in the last of 4 * k + 2 characters, and those are digits with the same
-- upper two bits, 3 * k + 1 bytes are decoded alike.
pub decode_alike :
    (k : ℕ) (d : List ℕ) (c c' : ℕ) (rest rest' : List ℕ) (v w : ℕ)
    → length d ≡ 4 * k + 1
    → safe_atoi64 c ≡ digit v
    → safe_atoi64 c' ≡ digit w
    → bit_and v 0x30 ≡ bit_and w 0x30
    → decode (3 * k + 1) (d ++ c ∷ rest) ≡ decode (3 * k + 1) (d ++ c' ∷ rest')
decode_alike zero (x ∷ []) c c' rest rest' v w l e e' h = last_alike x c c' rest rest' v w e e' h
decode_alike (suc k) (x ∷ y ∷ z ∷ t ∷ d) c c' rest rest' v w l e e' h =
    let ih = decode_alike k d c c' rest rest' v w (omega arith) e e' h in
    let m = more_alike (3 * k + 1) x y z t (d ++ c ∷ rest) (d ++ c' ∷ rest') ih in
    let n : 3 * suc k + 1 ≡ suc (suc (suc (3 * k + 1))) = omega arith in
    subst
      (λ j.
        decode j (x ∷ y ∷ z ∷ t ∷ (d ++ c ∷ rest)) ≡ decode j (x ∷ y ∷ z ∷ t ∷ (d ++ c' ∷ rest')))
      (sym n) m
decode_alike zero [] c c' rest rest' v w l e e' h = absurd (omega arith)
decode_alike zero (x ∷ y ∷ d) c c' rest rest' v w l e e' h = absurd (omega arith)
decode_alike (suc k) [] c c' rest rest' v w l e e' h = absurd (omega arith)
decode_alike (suc k) (x ∷ []) c c' rest rest' v w l e e' h = absurd (omega arith)
decode_alike (suc k) (x ∷ y ∷ []) c c' rest rest' v w l e e' h = absurd (omega arith)
decode_alike (suc k) (x ∷ y ∷ z ∷ []) c c' rest rest' v w l e e' h = absurd (omega arith)

abbrev pub is_digit : ℕ → Bool
is_digit c = elim (safe_atoi64 c) [ digit v ↦ true | dollar ↦ false | bad ↦ false ]

pub Digit-cases : (d : Digit) → ((w : ℕ) × (d ≡ digit w)) ⊎ ((d ≡ dollar) ⊎ (d ≡ bad))
Digit-cases (digit w) = inl (w, refl)
Digit-cases dollar = inr (inl refl)
Digit-cases bad = inr (inr refl)

pub is_digit-value : (c : ℕ) → is_digit c ≡ true → (v : ℕ) × (safe_atoi64 c ≡ digit v)
is_digit-value c h = elim (Digit-cases (safe_atoi64 c)) [
  | inl value ↦ value
  | inr other ↦ absurd (ground arith)
]

decode_four :
    (n x y z t a b c d : ℕ) (src bs : List ℕ)
    → safe_atoi64 x ≡ digit a
    → safe_atoi64 y ≡ digit b
    → safe_atoi64 z ≡ digit c
    → safe_atoi64 t ≡ digit d
    → decode n src ≡ some bs
    → decode (suc (suc (suc n))) (x ∷ y ∷ z ∷ t ∷ src)
      ≡ some (byte1 a b ∷ byte2 b c ∷ byte3 c d ∷ bs)
unfolding decode with_digit use_digit prepend
decode_four n x y z t a b c d src bs p q r s h = ground arith

-- 4 * k + 2 digits give 3 * k + 1 bytes, whatever follows them.
pub decode_accepts :
    (k : ℕ) (d rest : List ℕ)
    → length d ≡ 4 * k + 2
    → all is_digit d ≡ true
    → (bs : List ℕ) × (decode (3 * k + 1) (d ++ rest) ≡ some bs) × (length bs ≡ 3 * k + 1)
unfolding decode with_digit use_digit prepend
decode_accepts zero (x ∷ y ∷ []) rest l h =
    let (v, e) = is_digit-value x (ground arith) in
    let (w, e') = is_digit-value y (ground arith) in (byte1 v w ∷ [], ground arith, refl)
decode_accepts (suc k) (x ∷ y ∷ z ∷ t ∷ d) rest l h =
    let (a, p) = is_digit-value x (ground arith) in
    let (b, q) = is_digit-value y (ground arith) in
    let (c, r) = is_digit-value z (ground arith) in
    let (e, s) = is_digit-value t (ground arith) in
    let (bs, f, m) = decode_accepts k d rest (omega arith) (ground arith) in
    let g = decode_four (3 * k + 1) x y z t a b c e (d ++ rest) bs p q r s f in
    let n : 3 * suc k + 1 ≡ suc (suc (suc (3 * k + 1))) = omega arith in
    (
      byte1 a b ∷ byte2 b c ∷ byte3 c e ∷ bs,
      subst
          (λ j.
            decode j (x ∷ y ∷ z ∷ t ∷ (d ++ rest)) ≡ some (byte1 a b ∷ byte2 b c ∷ byte3 c e ∷ bs))
          (sym n) g,
      omega arith,
    )
decode_accepts zero [] rest l h = absurd (omega arith)
decode_accepts zero (x ∷ []) rest l h = absurd (omega arith)
decode_accepts zero (x ∷ y ∷ z ∷ d) rest l h = absurd (omega arith)
decode_accepts (suc k) [] rest l h = absurd (omega arith)
decode_accepts (suc k) (x ∷ []) rest l h = absurd (omega arith)
decode_accepts (suc k) (x ∷ y ∷ []) rest l h = absurd (omega arith)
decode_accepts (suc k) (x ∷ y ∷ z ∷ []) rest l h = absurd (omega arith)
