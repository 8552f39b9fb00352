-- ===== src/Security/Blowfish/Encoding.antt =====
-- BF_encode, BF_decode and BF_safe_atoi64 of src/Security/Blowfish.cpp. An array of BF_LONG is taken as
-- its bytes, which is how the two functions use it.
mod Digits
pub mod Prefix
pub mod RoundTrip
use lotospp.Base.{
  ℕ, zero, suc, ◌+◌, ◌-◌, ◌*◌, ◌/◌, ◌%◌, ◌^◌, Bool, true, false, List, [], ◌∷◌, ◌++◌, Option, none,
  some, leb, ltb, ◌==◌, if◌then◌else◌, bit_or, bit_and, codes,
}

-- An entry of a table; no call below leaves its table.
abbrev pub entry : List ℕ → ℕ → ℕ
entry [] i = 0
entry (x ∷ xs) zero = x
entry (x ∷ xs) (suc i) = entry xs i

abbrev pub itoa64 : List ℕ
itoa64 = codes "./ABCDEFGHIJKLMNOPQRSTUVWXYZabcdefghijklmnopqrstuvwxyz0123456789"

abbrev pub atoi64 : List ℕ
atoi64 =
    64 ∷ 64 ∷ 64 ∷ 64 ∷ 64 ∷ 64 ∷ 64 ∷ 64 ∷ 64 ∷ 64 ∷ 64 ∷ 64 ∷ 64 ∷ 64 ∷ 0 ∷ 1 ∷ 54 ∷ 55 ∷ 56 ∷ 57
    ∷ 58 ∷ 59 ∷ 60 ∷ 61 ∷ 62 ∷ 63 ∷ 64 ∷ 64 ∷ 64 ∷ 64 ∷ 64 ∷ 64 ∷ 64 ∷ 2 ∷ 3 ∷ 4 ∷ 5 ∷ 6 ∷ 7 ∷ 8 ∷ 9
    ∷ 10 ∷ 11 ∷ 12 ∷ 13 ∷ 14 ∷ 15 ∷ 16 ∷ 17 ∷ 18 ∷ 19 ∷ 20 ∷ 21 ∷ 22 ∷ 23 ∷ 24 ∷ 25 ∷ 26 ∷ 27 ∷ 64
    ∷ 64 ∷ 64 ∷ 64 ∷ 64 ∷ 64 ∷ 28 ∷ 29 ∷ 30 ∷ 31 ∷ 32 ∷ 33 ∷ 34 ∷ 35 ∷ 36 ∷ 37 ∷ 38 ∷ 39 ∷ 40 ∷ 41
    ∷ 42 ∷ 43 ∷ 44 ∷ 45 ∷ 46 ∷ 47 ∷ 48 ∷ 49 ∷ 50 ∷ 51 ∷ 52 ∷ 53 ∷ 64 ∷ 64 ∷ 64 ∷ 64 ∷ 64 ∷ []

-- The macro's ways to go on: a digit, the `break` at a dollar sign, the `return -1`.
pub data Digit : Type 0 where
  digit : ℕ → Digit
  dollar bad : Digit

-- `tmp` is an unsigned int, so the subtraction wraps below a blank.
unfoldable pub safe_atoi64 : ℕ → Digit
safe_atoi64 src =
    let tmp = (src + 2 ^ 32 - 0x20) % 2 ^ 32 in
    if src == b'$'
    then dollar
    else if leb 0x60 tmp
    then bad
    else if ltb 63 (entry atoi64 tmp)
    then bad
    else digit (entry atoi64 tmp)

-- The bytes that three or four digits give; the store into a byte cuts the rest off.
pub byte1 : ℕ → ℕ → ℕ
byte1 c1 c2 = bit_or (c1 * 4) (bit_and c2 0x30 / 16) % 256

pub byte2 : ℕ → ℕ → ℕ
byte2 c2 c3 = bit_or (bit_and c2 0x0F * 16) (bit_and c3 0x3C / 4) % 256

pub byte3 : ℕ → ℕ → ℕ
byte3 c3 c4 = bit_or (bit_and c3 0x03 * 64) c4 % 256

unfoldable pub zeros : ℕ → List ℕ
zeros zero = []
zeros (suc n) = 0 ∷ zeros n

pub prepend : ℕ → Option (List ℕ) → Option (List ℕ)
prepend b none = none
prepend b (some bs) = some (b ∷ bs)

-- What a digit does with `n` bytes left to write: `more` goes on behind it.
pub use_digit : ℕ → List ℕ → (ℕ → List ℕ → Option (List ℕ)) → Digit → Option (List ℕ)
use_digit n src more (digit v) = more v src
use_digit n src more dollar = some (zeros n)
use_digit n src more bad = none

-- Behind the text stands a NUL.
pub with_digit : ℕ → List ℕ → (ℕ → List ℕ → Option (List ℕ)) → Option (List ℕ)
with_digit n [] more = use_digit n [] more (safe_atoi64 0)
with_digit n (c ∷ src) more = use_digit n src more (safe_atoi64 c)

-- The loop with `n` bytes left; `none` is the result -1. The callers ask for one byte or more.
pub decode : ℕ → List ℕ → Option (List ℕ)
decode zero src = some []
decode (suc zero) src =
    with_digit 1 src (λ c1 src₁. with_digit 1 src₁ (λ c2 src₂. some (byte1 c1 c2 ∷ [])))
decode (suc (suc zero)) src = with_digit 2 src (λ c1 src₁.
    with_digit 2 src₁
      (λ c2 src₂. prepend (byte1 c1 c2) (with_digit 1 src₂ (λ c3 src₃. some (byte2 c2 c3 ∷ [])))))
decode (suc (suc (suc n))) src = with_digit (suc (suc (suc n))) src (λ c1 src₁.
    with_digit (suc (suc (suc n))) src₁ (λ c2 src₂. prepend (byte1 c1 c2) (
      with_digit (suc (suc n)) src₂ (λ c3 src₃.
        prepend (byte2 c2 c3)
          (with_digit (suc n) src₃ (λ c4 src₄. prepend (byte3 c3 c4) (decode n src₄)))))))

pub symbol : ℕ → ℕ
symbol v = entry itoa64 v

-- The digits that `encode` writes for up to three bytes.
pub digit1 : ℕ → ℕ
digit1 c1 = c1 / 4

pub digit2 : ℕ → ℕ → ℕ
digit2 c1 c2 = bit_or (bit_and c1 0x03 * 16) (c2 / 16)

pub digit3 : ℕ → ℕ → ℕ
digit3 c2 c3 = bit_or (bit_and c2 0x0F * 4) (c3 / 64)

pub digit4 : ℕ → ℕ
digit4 c3 = bit_and c3 0x3F

-- The loop on the bytes that are left; the callers pass one byte or more. A missing byte counts as 0,
-- since the code then writes the bits that it has.
pub encode : List ℕ → List ℕ
encode [] = []
encode (c1 ∷ []) = symbol (digit1 c1) ∷ symbol (digit2 c1 0) ∷ []
encode (c1 ∷ c2 ∷ []) = symbol (digit1 c1) ∷ symbol (digit2 c1 c2) ∷ symbol (digit3 c2 0) ∷ []
encode (c1 ∷ c2 ∷ c3 ∷ src) =
    symbol (digit1 c1)
    ∷ symbol (digit2 c1 c2)
    ∷ symbol (digit3 c2 c3)
    ∷ symbol (digit4 c3)
    ∷ encode src
