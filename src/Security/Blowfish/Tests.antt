-- ===== src/Security/Blowfish/Tests.antt =====
-- The password hash at concrete inputs.
use lotospp.Base.{ℕ, ◌+◌, ◌≡◌, refl, List, [], ◌∷◌, ◌++◌, some, codes, arith}
use lotospp.Security.Blowfish.Encoding.{encode, decode, safe_atoi64}
use lotospp.Security.Blowfish.Encoding.RoundTrip.{decode-encode}
use lotospp.Security.Blowfish.Crypt.{hashed, is_setting, subtype_flags, rounds_of, bf_crypt}
use lotospp.Security.Blowfish.Crypt.Repeat.{bf_crypt_repeat}

decode-encode_example :
    decode 4 (encode (1 ∷ 255 ∷ 128 ∷ 7 ∷ []) ++ codes "$") ≡ some (1 ∷ 255 ∷ 128 ∷ 7 ∷ [])
decode-encode_example = decode-encode (1 ∷ 255 ∷ 128 ∷ 7 ∷ []) (codes "$") refl

abbrev setting : List ℕ
setting = codes "$2y$10$abcdefghijklmnopqrstuu"

bf_crypt_repeat_example :
    (out : List ℕ) × (bf_crypt (λ i. i) (λ i. i + i) (codes "secret") setting 61 16 ≡ hashed out)
    × (bf_crypt (λ i. i) (λ i. i + i) (codes "secret") out 61 16 ≡ hashed out)
unfolding is_setting subtype_flags rounds_of safe_atoi64
bf_crypt_repeat_example =
    bf_crypt_repeat (λ i. i) (λ i. i + i) (codes "secret") setting 61 16 (omega arith) refl
      (omega arith) (omega arith) (omega arith) refl
