-- ===== src/Security/Blowfish/Encoding/Digits.antt =====
-- The digits and bytes of the hash's base 64 by arithmetic, and that they undo each other.
use lotospp.Base.{
  ℕ, ◌+◌, ◌*◌, ◌/◌, ◌%◌, ◌<◌, ◌≡◌, refl, Bool, true, false, ◌==◌, bit_or, bit_and, arith, holds_to,
  holds_to-at, equal_at,
}
use lotospp.Security.Blowfish.Encoding.{
  Digit, digit, dollar, bad, safe_atoi64, symbol, byte1, byte2, byte3, digit2, digit3, digit4,
}

or_pair4 : (a b : ℕ) → a < 64 → b < 4 → bit_or (a * 4) b ≡ a * 4 + b
or_pair4 = equal_at 64 4 (λ a b. bit_or (a * 4) b) (λ a b. a * 4 + b) refl

or_pair16 : (a b : ℕ) → a < 16 → b < 16 → bit_or (a * 16) b ≡ a * 16 + b
or_pair16 = equal_at 16 16 (λ a b. bit_or (a * 16) b) (λ a b. a * 16 + b) refl

or_pair64 : (a b : ℕ) → a < 4 → b < 64 → bit_or (a * 64) b ≡ a * 64 + b
or_pair64 = equal_at 4 64 (λ a b. bit_or (a * 64) b) (λ a b. a * 64 + b) refl

-- The masks on a byte.
masks :
    (c : ℕ)
    → c < 256
    → (bit_and c 0x03 ≡ c % 4)
      × (bit_and c 0x0F ≡ c % 16)
      × (bit_and c 0x3F ≡ c % 64)
      × (bit_and c 0x30 ≡ c / 16 % 4 * 16)
      × (bit_and c 0x3C ≡ c / 4 % 16 * 4)
masks c l =
    let m : (k : ℕ)
        → (f : ℕ → ℕ) → holds_to 256 (λ x. holds_to 1 (λ y. bit_and x k == f x)) ≡ true
        → bit_and c k ≡ f c =
      λ k f h. equal_at 256 1 (λ x y. bit_and x k) (λ x y. f x) h c 0 l (omega arith) in
    (
      m 0x03 (λ x. x % 4) refl,
      m 0x0F (λ x. x % 16) refl,
      m 0x3F (λ x. x % 64) refl,
      m 0x30 (λ x. x / 16 % 4 * 16) refl,
      m 0x3C (λ x. x / 4 % 16 * 4) refl,
    )

pub digit2_lem : (c1 c2 : ℕ) → c1 < 256 → c2 < 256 → digit2 c1 c2 ≡ c1 % 4 * 16 + c2 / 16
unfolding digit2
digit2_lem c1 c2 l k = rw ((masks c1 l).0, or_pair16 (c1 % 4) (c2 / 16) (omega arith) (omega arith))

pub digit3_lem : (c2 c3 : ℕ) → c2 < 256 → c3 < 256 → digit3 c2 c3 ≡ c2 % 16 * 4 + c3 / 64
unfolding digit3
digit3_lem c2 c3 l k = rw ((masks c2 l).1, or_pair4 (c2 % 16) (c3 / 64) (omega arith) (omega arith))

pub digit4_lem : (c3 : ℕ) → c3 < 256 → digit4 c3 ≡ c3 % 64
unfolding digit4
digit4_lem c3 l = (masks c3 l).2

pub byte1_lem : (v w : ℕ) → v < 64 → w < 64 → byte1 v w ≡ v * 4 + w / 16
unfolding byte1
byte1_lem v w l k =
    let m = (masks w (omega arith)).3 in let o = or_pair4 v (w / 16) l (omega arith) in grind arith

pub byte2_lem : (v w : ℕ) → v < 64 → w < 64 → byte2 v w ≡ v % 16 * 16 + w / 4
unfolding byte2
byte2_lem v w l k =
    let m = (masks v (omega arith)).1 in
    let m' = (masks w (omega arith)).4 in
    let o = or_pair16 (v % 16) (w / 4) (omega arith) (omega arith) in grind arith

pub byte3_lem : (v w : ℕ) → v < 64 → w < 64 → byte3 v w ≡ v % 4 * 64 + w
unfolding byte3
byte3_lem v w l k =
    let m = (masks v (omega arith)).0 in let o = or_pair64 (v % 4) w (omega arith) k in grind arith

abbrev reads_as : ℕ → Digit → Bool
reads_as v (digit w) = w == v
reads_as v _ = false

reads_as_digit : (v : ℕ) (d : Digit) → reads_as v d ≡ true → d ≡ digit v
reads_as_digit v (digit w) h = ground arith
reads_as_digit v dollar h = ground arith
reads_as_digit v bad h = ground arith

-- The symbol of a digit is read as that digit.
pub safe_atoi64-symbol : (v : ℕ) → v < 64 → safe_atoi64 (symbol v) ≡ digit v
unfolding safe_atoi64 symbol
safe_atoi64-symbol v l =
    reads_as_digit v (safe_atoi64 (symbol v))
      (holds_to-at 64 (λ x. reads_as x (safe_atoi64 (symbol x))) refl v l)
