-- ===== src/Security/Blowfish/Crypt/Repeat.antt =====
-- BF_crypt of src/Security/Blowfish.cpp with its own output as the setting, which is how a password is
-- compared with its hash.
use lotospp.Base.{
  ℕ, ◌<◌, ◌≤◌, ◌≡◌, sym, subst, ap, ◌∙◌, true, false, List, ◌∷◌, ◌++◌, some, char_lt, length, take,
  drop, length-drop, length-take, take-append-drop, all, Option-cases, arith, inl, inr,
}
use lotospp.Security.Blowfish.Encoding.{digit, entry, safe_atoi64, decode}
use lotospp.Security.Blowfish.Encoding.Prefix.{is_digit, is_digit-value, decode_accepts}
use lotospp.Security.Blowfish.Cipher.{Words}
use lotospp.Security.Blowfish.Crypt.{
  Crypt, hashed, is_setting, subtype_flags, rounds_of, hash, canonical, write_output, crypt_salted,
  bf_crypt,
}
use lotospp.Security.Blowfish.Crypt.Text.{split_at, entry-drop, all-take}
use lotospp.Security.Blowfish.Crypt.Setting.{canonical_lem, same_header, write_output_at, same_salt}

module _ (init_p init_s : Words) (key : List ℕ) (size min : ℕ) where
  abbrev run : List ℕ → Crypt
  run setting = bf_crypt init_p init_s key setting size min

  -- The result of a setting that is accepted, by its parts.
  run_at :
      (pre : List ℕ) (c : ℕ) (rest out : List ℕ)
      → length pre ≡ 28
      → char_lt c 0x20 ≡ false
      → run (pre ++ c ∷ rest) ≡ hashed out
      → (salt : List ℕ) × (decode 16 (drop 7 (pre ++ c ∷ rest)) ≡ some salt)
        × (out
            ≡ pre
              ++ canonical c
                ∷ hash init_p init_s key
                    (subtype_flags (pre ++ c ∷ rest))
                    (rounds_of (pre ++ c ∷ rest))
                    salt)
  unfolding bf_crypt crypt_salted
  run_at pre c rest out l h r = elim (Option-cases (decode 16 (drop 7 (pre ++ c ∷ rest)))) [
    | inl refused ↦ absurd (ground arith)
    | inr (salt, decoded) ↦
        let text : List ℕ =
          hash init_p init_s key (subtype_flags (pre ++ c ∷ rest)) (rounds_of (pre ++ c ∷ rest))
            salt in
        let e = write_output_at pre c rest text l h in (salt, decoded, ground arith)
  ]

  -- A setting that agrees with an accepted one in its header and its salt is accepted too.
  run_alike :
      (A B salt out : List ℕ)
      → is_setting A ≡ is_setting B
      → rounds_of A ≡ rounds_of B
      → subtype_flags A ≡ subtype_flags B
      → decode 16 (drop 7 A) ≡ decode 16 (drop 7 B)
      → decode 16 (drop 7 A) ≡ some salt
      → run A ≡ hashed out
      → write_output B (hash init_p init_s key (subtype_flags A) (rounds_of A) salt) ≡ hashed B
      → run B ≡ hashed B
  unfolding bf_crypt crypt_salted
  run_alike A B salt out hs hr hf d d' r o = ground arith

  run_again :
      (pre : List ℕ) (c v : ℕ) (rest out : List ℕ)
      → length pre ≡ 28
      → c < 256
      → safe_atoi64 c ≡ digit v
      → run (pre ++ c ∷ rest) ≡ hashed out
      → run out ≡ hashed out
  run_again pre c v rest out l k e r =
      let (w, e', same_bits, fixed, low, low') = canonical_lem c v k e in
      let (salt, decoded, o) = run_at pre c rest out l low r in
      let A : List ℕ = pre ++ c ∷ rest in
      let text : List ℕ = hash init_p init_s key (subtype_flags A) (rounds_of A) salt in
      let B : List ℕ = pre ++ canonical c ∷ text in
      let (hs, hr, hf) = same_header pre (c ∷ rest) (canonical c ∷ text) l in
      let d = same_salt pre c (canonical c) rest text v w l e e' same_bits in
      let o' = write_output_at pre (canonical c) text text l low' in
      let again : run B ≡ hashed B =
        run_alike A B salt out hs hr hf d decoded r
          (o' ∙ ap (λ x. hashed (pre ++ x ∷ text)) fixed) in
      subst (λ x. run x ≡ hashed x) (sym o) again

pub bf_crypt_again :
    (init_p init_s : Words) (key setting : List ℕ) (size min : ℕ) (out : List ℕ)
    → 29 ≤ length setting
    → entry setting 28 < 256
    → is_digit (entry setting 28) ≡ true
    → bf_crypt init_p init_s key setting size min ≡ hashed out
    → bf_crypt init_p init_s key out size min ≡ hashed out
bf_crypt_again init_p init_s key setting size min out l k d r =
    let (pre, rest, m, e) = split_at 28 setting (omega arith) in
    let (v, f) = is_digit-value (entry setting 28) d in
    run_again init_p init_s key size min pre (entry setting 28) v rest out m k f
      (subst (λ x. bf_crypt init_p init_s key x size min ≡ hashed out) e r)

-- The 22 characters of the salt.
abbrev pub salt_text : List ℕ → List ℕ
salt_text setting = take 22 (drop 7 setting)

-- A setting of bytes with a valid header, at least `min` rounds and a salt of 22 digits of the base
-- 64 is accepted where the output has room, and the same password with the output as the setting
-- gives that output again: a password matches the hash that was made of it.
pub bf_crypt_repeat :
    (init_p init_s : Words) (key setting : List ℕ) (size min : ℕ)
    → 61 ≤ size
    → is_setting setting ≡ true
    → min ≤ rounds_of setting
    → 29 ≤ length setting
    → entry setting 28 < 256
    → all is_digit (salt_text setting) ≡ true
    → (out : List ℕ) × (bf_crypt init_p init_s key setting size min ≡ hashed out)
      × (bf_crypt init_p init_s key out size min ≡ hashed out)
unfolding bf_crypt crypt_salted write_output
bf_crypt_repeat init_p init_s key setting size min z h c l k d =
    let cut : salt_text setting ++ drop 22 (drop 7 setting) ≡ drop 7 setting =
      take-append-drop 22 (drop 7 setting) in
    let m : length (salt_text setting) ≡ 22 =
      omega (arith, length-take 22 (drop 7 setting), length-drop 7 setting) in
    let (salt, f, n) = decode_accepts 5 (salt_text setting) (drop 22 (drop 7 setting)) m d in
    let f' : decode 16 (drop 7 setting) ≡ some salt = subst (λ x. decode 16 x ≡ some salt) cut f in
    let last : is_digit (entry setting 28) ≡ true =
      subst (λ x. is_digit x ≡ true) (entry-drop 7 setting 21)
        (all-take is_digit 22 (drop 7 setting) 21 d (omega arith)
          (omega (arith, length-drop 7 setting))) in
    let (v, e) = is_digit-value (entry setting 28) last in
    let (w, e', same_bits, fixed, low, low') = canonical_lem (entry setting 28) v k e in
    let text : List ℕ = hash init_p init_s key (subtype_flags setting) (rounds_of setting) salt in
    let out : List ℕ = take 28 setting ++ canonical (entry setting 28) ∷ text in
    let r : bf_crypt init_p init_s key setting size min ≡ hashed out = ground arith in
    (out, r, bf_crypt_again init_p init_s key setting size min out l k last r)
