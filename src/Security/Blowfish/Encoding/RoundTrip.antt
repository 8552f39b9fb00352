-- ===== src/Security/Blowfish/Encoding/RoundTrip.antt =====
-- BF_decode after BF_encode of src/Security/Blowfish.cpp.
use lotospp.Base.{
  ℕ, suc, ◌<◌, ◌≡◌, refl, ap, Bool, true, List, [], ◌∷◌, ◌++◌, Option, some, ltb, length, all,
  arith,
}
use lotospp.Security.Blowfish.Encoding.{
  symbol, byte1, byte2, byte3, digit1, digit2, digit3, digit4, prepend, use_digit, with_digit,
  decode, encode,
}
use lotospp.Security.Blowfish.Encoding.Digits.{
  digit2_lem, digit3_lem, digit4_lem, byte1_lem, byte2_lem, byte3_lem, safe_atoi64-symbol,
}

abbrev pub is_byte : ℕ → Bool
is_byte b = ltb b 256

with_digit-symbol :
    (n v : ℕ) (src : List ℕ) (more : ℕ → List ℕ → Option (List ℕ))
    → v < 64
    → with_digit n (symbol v ∷ src) more ≡ more v src
unfolding with_digit use_digit
with_digit-symbol n v src more l = ap (use_digit n src more) (safe_atoi64-symbol v l)

-- The digits of three bytes are below 64, and give the bytes back.
round_trip3 :
    (a b c : ℕ)
    → a < 256
    → b < 256
    → c < 256
    → (digit1 a < 64)
      × (digit2 a b < 64)
      × (digit3 b c < 64)
      × (digit4 c < 64)
      × (byte1 (digit1 a) (digit2 a b) ≡ a)
      × (byte2 (digit2 a b) (digit3 b c) ≡ b)
      × (byte3 (digit3 b c) (digit4 c) ≡ c)
unfolding digit1
round_trip3 a b c k l m =
    let p : digit1 a < 64 = omega arith in
    let e2 = digit2_lem a b k l in
    let e3 = digit3_lem b c l m in
    let e4 = digit4_lem c m in
    let q : digit2 a b < 64 = omega arith in
    let r : digit3 b c < 64 = omega arith in
    let s : digit4 c < 64 = omega arith in
    (
      p,
      q,
      r,
      s,
      omega (arith, byte1_lem (digit1 a) (digit2 a b) p q),
      omega (arith, byte2_lem (digit2 a b) (digit3 b c) q r),
      omega (arith, byte3_lem (digit3 b c) (digit4 c) r s),
    )

-- Decoding as many bytes as were encoded gives the bytes back, whatever follows their text.
pub decode-encode :
    (bs rest : List ℕ) → all is_byte bs ≡ true → decode (length bs) (encode bs ++ rest) ≡ some bs
unfolding decode encode prepend
decode-encode [] rest h = refl
decode-encode (a ∷ []) rest h =
    let (p, q, r, s, e1, e2, e3) = round_trip3 a 0 0 (ground arith) (omega arith) (omega arith) in
    rw (
      with_digit-symbol 1 (digit1 a) (symbol (digit2 a 0) ∷ rest)
          (λ c1 src₁. with_digit 1 src₁ (λ c2 src₂. some (byte1 c1 c2 ∷ []))) p,
      with_digit-symbol 1 (digit2 a 0) rest (λ c2 src₂. some (byte1 (digit1 a) c2 ∷ [])) q,
      e1,
    )
decode-encode (a ∷ b ∷ []) rest h =
    let (p, q, r, s, e1, e2, e3) = round_trip3 a b 0 (ground arith) (ground arith) (omega arith) in
    rw (
      with_digit-symbol 2 (digit1 a) (symbol (digit2 a b) ∷ symbol (digit3 b 0) ∷ rest)
          (λ c1 src₁. with_digit 2 src₁ (λ c2 src₂.
            prepend (byte1 c1 c2) (with_digit 1 src₂ (λ c3 src₃. some (byte2 c2 c3 ∷ [])))))
          p,
      with_digit-symbol 2 (digit2 a b) (symbol (digit3 b 0) ∷ rest)
          (λ c2 src₂.
            prepend (byte1 (digit1 a) c2) (with_digit 1 src₂ (λ c3 src₃. some (byte2 c2 c3 ∷ []))))
          q,
      with_digit-symbol 1 (digit3 b 0) rest (λ c3 src₃. some (byte2 (digit2 a b) c3 ∷ [])) r,
      e1,
      e2,
    )
decode-encode (a ∷ b ∷ c ∷ bs) rest h =
    let (p, q, r, s, e1, e2, e3) = round_trip3 a b c (ground arith) (ground arith) (ground arith) in
    let n : ℕ = length bs in
    let src : List ℕ = encode bs ++ rest in
    rw (
      with_digit-symbol (suc (suc (suc n))) (digit1 a)
          (symbol (digit2 a b) ∷ symbol (digit3 b c) ∷ symbol (digit4 c) ∷ src)
          (λ c1 src₁. with_digit (suc (suc (suc n))) src₁ (λ c2 src₂. prepend (byte1 c1 c2) (
            with_digit (suc (suc n)) src₂ (λ c3 src₃.
              prepend (byte2 c2 c3)
                (with_digit (suc n) src₃ (λ c4 src₄. prepend (byte3 c3 c4) (decode n src₄)))))))
          p,
      with_digit-symbol (suc (suc (suc n))) (digit2 a b)
          (symbol (digit3 b c) ∷ symbol (digit4 c) ∷ src)
          (λ c2 src₂. prepend (byte1 (digit1 a) c2) (
            with_digit (suc (suc n)) src₂ (λ c3 src₃.
              prepend (byte2 c2 c3)
                (with_digit (suc n) src₃ (λ c4 src₄. prepend (byte3 c3 c4) (decode n src₄))))))
          q,
      with_digit-symbol (suc (suc n)) (digit3 b c) (symbol (digit4 c) ∷ src)
          (λ c3 src₃.
            prepend (byte2 (digit2 a b) c3)
              (with_digit (suc n) src₃ (λ c4 src₄. prepend (byte3 c3 c4) (decode n src₄))))
          r,
      with_digit-symbol (suc n) (digit4 c) src
          (λ c4 src₄. prepend (byte3 (digit3 b c) c4) (decode n src₄)) s,
      decode-encode bs rest (ground arith),
      e1,
      e2,
      e3,
    )
