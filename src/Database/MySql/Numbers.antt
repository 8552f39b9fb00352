-- ===== src/Database/MySql/Numbers.antt =====
-- The getters of numbers of MySQLResult in src/Database/Drivers/MySQL.cpp, with atoi, atoll and the stream's
-- operator>> of the C and C++ libraries. `none` is a read without a row, or a number that atoi and atoll
-- cannot hold, which is undefined.
use lotospp.Base.{
  ℕ, zero, suc, ◌+◌, ◌-◌, ◌*◌, ◌%◌, ◌^◌, ℤ, pos, negsuc, Bool, true, false, ◌&&◌, ◌||◌, List, [],
  ◌∷◌, Option, none, some, if◌then◌else◌, ltb, leb, ◌==◌,
}
use lotospp.Database.MySql.{
  MySqlResult, Field, no_field, null_field, undefined_field, text_field, get_field,
}

unfoldable pub is_space : ℕ → Bool
is_space c = (c == b' ') || leb 9 c && leb c 13

unfoldable pub is_digit : ℕ → Bool
is_digit c = leb b'0' c && leb c b'9'

unfoldable pub after_space : List ℕ → List ℕ
after_space [] = []
after_space (c ∷ cs) = if is_space c then after_space cs else c ∷ cs

-- Whether there is a minus, and what stands behind the sign.
unfoldable pub sign : List ℕ → Bool × List ℕ
sign [] = (false, [])
sign (c ∷ cs) = if c == b'-' then (true, cs) else if c == b'+' then (false, cs) else (false, c ∷ cs)

-- The digits up to another byte, behind a number.
unfoldable pub digits : ℕ → List ℕ → ℕ
digits n [] = n
digits n (c ∷ cs) = let rest = digits (n * 10 + (c - b'0')) cs in if is_digit c then rest else n

unfoldable pub read_sign : List ℕ → Bool × List ℕ
read_sign s = sign (after_space s)

abbrev pub negated : ℕ → ℤ
negated zero = pos 0
negated (suc n) = negsuc n

-- atoi and atoll, of `w` bits.
unfoldable pub to_signed : ℕ → Bool → ℕ → Option ℤ
to_signed w true n = if leb n (2 ^ (w - 1)) then some (negated n) else none
to_signed w false n = if ltb n (2 ^ (w - 1)) then some (pos n) else none

unfoldable pub atoi : ℕ → List ℕ → Option ℤ
atoi w s = let (minus, cs) = read_sign s in to_signed w minus (digits 0 cs)

-- operator>> of a uint32_t, which keeps the greatest number where the text's is greater.
unfoldable pub to_unsigned : Bool → ℕ → ℕ
to_unsigned minus n =
    if ltb (2 ^ 32 - 1) n then 2 ^ 32 - 1 else if minus then (2 ^ 32 - n) % 2 ^ 32 else n

unfoldable pub read_uint : List ℕ → ℕ
read_uint s = let (minus, cs) = read_sign s in to_unsigned minus (digits 0 cs)

unfoldable pub signed_field : ℕ → Field → Option ℤ
signed_field w no_field = some (pos 0)
signed_field w null_field = some (pos 0)
signed_field w undefined_field = none
signed_field w (text_field text) = atoi w text

unfoldable pub get_data_int : MySqlResult → List ℕ → Option ℤ
get_data_int r name = signed_field 32 (get_field r name)

unfoldable pub get_data_long : MySqlResult → List ℕ → Option ℤ
get_data_long r name = signed_field 64 (get_field r name)

unfoldable pub unsigned_field : Field → Option ℕ
unsigned_field no_field = some 0
unsigned_field null_field = some 0
unsigned_field undefined_field = none
unsigned_field (text_field text) = some (read_uint text)

unfoldable pub get_data_uint : MySqlResult → List ℕ → Option ℕ
get_data_uint r name = unsigned_field (get_field r name)
