-- ===== src/Common/IoUser/Decimal.antt =====
-- The numbers that src/Common/IOUser.cpp writes into a query and reads from a row.
use native.Mathlib.Nat.{pow-succ'}
use lotospp.Base.{
  ℕ, zero, suc, ◌+◌, ◌-◌, ◌*◌, ◌/◌, ◌%◌, ◌^◌, ◌<◌, ◌≤◌, ◌≡◌, refl, ap, sym, ◌∙◌, pos, Bool, true,
  false, List, [], ◌∷◌, none, some, if◌then◌else◌, ltb, Bool-cases, inl, inr, arith,
}
use lotospp.Database.MySql.{MySqlResult, text_field, get_field}
use lotospp.Database.MySql.Numbers.{
  is_space, is_digit, after_space, sign, digits, read_sign, to_signed, atoi, to_unsigned, read_uint,
  signed_field, unsigned_field, get_data_int, get_data_uint,
}
use lotospp.Common.IoUser.{decimal, decimal_from}

if_same : (b : Bool) (ds : List ℕ) → (if b then ds else ds) ≡ ds
if_same true ds = refl
if_same false ds = refl

tenth : (fuel n : ℕ) → n < 10 ^ suc fuel → n / 10 < 10 ^ fuel
tenth fuel n l = let e = pow-succ' 10 fuel in omega (arith, e)

-- One digit more.
digits-digit :
    (n d : ℕ) (ds : List ℕ) → d < 10 → digits n ((b'0' + d) ∷ ds) ≡ digits (n * 10 + d) ds
unfolding digits is_digit
digits-digit n d ds l =
    let e : n * 10 + (b'0' + d - b'0') ≡ n * 10 + d = omega arith in
    let t : is_digit (b'0' + d) ≡ true = ground arith in rw t (ap (λ x. digits x ds) e)

digits-decimal_from :
    (fuel n : ℕ) (ds : List ℕ) → n < 10 ^ fuel → digits 0 (decimal_from fuel n ds) ≡ digits n ds
unfolding digits decimal_from is_digit
digits-decimal_from zero n ds l = let z : n ≡ 0 = omega arith in rw z refl
digits-decimal_from (suc fuel) n ds l = elim (Bool-cases (ltb n 10)) [
  | inl small ↦
      let under : n < 10 = ground arith in
      rw small (digits-digit 0 (n % 10) ds (omega arith) ∙ ap (λ x. digits x ds) (omega arith))
  | inr big ↦
      let more = digits-decimal_from fuel (n / 10) ((b'0' + n % 10) ∷ ds) (tenth fuel n l) in
      rw big (
        more
        ∙ digits-digit (n / 10) (n % 10) ds (omega arith)
        ∙ ap (λ x. digits x ds) (omega arith))
]

first_digit :
    (fuel n : ℕ) (ds : List ℕ)
    → (c : ℕ) × (cs : List ℕ) × (decimal_from (suc fuel) n ds ≡ c ∷ cs) × (b'0' ≤ c) × (c ≤ b'9')
unfolding decimal_from
first_digit zero n ds =
    (b'0' + n % 10, ds, if_same (ltb n 10) ((b'0' + n % 10) ∷ ds), omega arith, omega arith)
first_digit (suc fuel) n ds = elim (Bool-cases (ltb n 10)) [
  | inl small ↦ (b'0' + n % 10, ds, rw small refl, omega arith, omega arith)
  | inr big ↦
      let (c, cs, e, l, h) = first_digit fuel (n / 10) ((b'0' + n % 10) ∷ ds) in
      (c, cs, rw big e, l, h)
]

read_sign-digit : (c : ℕ) (cs : List ℕ) → b'0' ≤ c → c ≤ b'9' → read_sign (c ∷ cs) ≡ (false, c ∷ cs)
unfolding read_sign sign after_space is_space
read_sign-digit c cs l h = ground arith

-- What the getters read behind the sign of a number in decimal.
read_sign-decimal :
    (n : ℕ)
    → n < 2 ^ 64
    → ((read_sign (decimal n)).0 ≡ false) × (digits 0 (read_sign (decimal n)).1 ≡ n)
unfolding decimal digits
read_sign-decimal n l =
    let (c, cs, e, lo, hi) = first_digit 19 n [] in
    let plain : read_sign (decimal n) ≡ (false, decimal n) =
      ap read_sign e ∙ read_sign-digit c cs lo hi ∙ ap (λ x. (false, x)) (sym e) in
    (ap (λ x. x.0) plain, ap (λ x. digits 0 x.1) plain ∙ digits-decimal_from 20 n [] (omega arith))

read_uint-decimal : (n : ℕ) → n < 2 ^ 32 → read_uint (decimal n) ≡ n
unfolding read_uint to_unsigned
read_uint-decimal n l =
    let (plus, value) = read_sign-decimal n (omega arith) in
    (λ i. to_unsigned (plus i) (value i)) ∙ ground arith

atoi-decimal :
    (n : ℕ) → n < 2 ^ 32 → atoi 32 (decimal n) ≡ (if ltb n (2 ^ 31) then some (pos n) else none)
unfolding atoi to_signed
atoi-decimal n l =
    let (plus, value) = read_sign-decimal n (omega arith) in λ i. to_signed 32 (plus i) (value i)

-- A column with a number in decimal, as save writes a user's: getDataUInt reads every uint32_t back, and
-- getDataInt, which load calls for the id, those below 2 ^ 31; the others are undefined.
pub get_data-decimal :
    (r : MySqlResult) (name : List ℕ) (n : ℕ)
    → get_field r name ≡ text_field (decimal n)
    → n < 2 ^ 32
    → (get_data_uint r name ≡ some n)
      × (get_data_int r name ≡ (if ltb n (2 ^ 31) then some (pos n) else none))
unfolding get_data_uint get_data_int unsigned_field signed_field
get_data-decimal r name n f l = (
  ap unsigned_field f ∙ ap some (read_uint-decimal n l),
  ap (signed_field 32) f ∙ atoi-decimal n l,
)
