-- ===== src/Common/Enum.antt =====
-- The enumerations of src/Common/enum.h: an Enum with its names, and the sets of flags, BitEnum. A value is the
-- bit pattern of an int. The maps are in no order, since no iteration over them is modelled but
-- LoginCom's, which Login has.
pub mod Flags
pub mod Lookups
mod Tests
use lotospp.Base.{
  ℕ, zero, suc, ◌+◌, ◌-◌, ◌*◌, ◌^◌, ◌≡◌, Bool, true, false, not, ◌&&◌, List, [], ◌∷◌, ◌++◌, Option,
  none, some, ltb, ◌==◌, if◌then◌else◌, equals, codes, length, lookup, assign, emplace, bit_and,
  bit_or,
}

-- The static members, but for `initialized` and the name.
pub record Enum : Type 0 where
  pub enum_to_string : List (ℕ × List (List ℕ))
  pub enum_to_value : List (ℕ × List ℕ)
  pub string_to_enum : List (List ℕ × ℕ)
  pub lstring_to_enum : List (List ℕ × ℕ)

abbrev pub empty : Enum
empty = record {
  enum_to_string = [];
  enum_to_value = [];
  string_to_enum = [];
  lstring_to_enum = [];
}

-- The texts of the enum_conversion_error, by what they name.
pub data ConversionError : Type 0 where
  value_out_of_range invalid_value : ℕ → ConversionError
  text_out_of_range no_such_text : List ℕ → ConversionError

-- `past_end` is a read through the iterator behind a map's last element, which is undefined.
pub data Lookup {ℓ} (A : Type ℓ) : Type ℓ where
  got : A → Lookup A
  thrown : ConversionError → Lookup A
  past_end : Lookup A

-- Several functions return what the map's end holds where the key is missing, and throw where it is there.
unfoldable pub at_end {ℓ κ} : {A : Type ℓ} {B : Type κ} → Option A → ConversionError → Lookup B
at_end none e = past_end
at_end (some a) e = thrown e

abbrev pub front : List (List ℕ) → Lookup (List ℕ)
front [] = past_end
front (s ∷ ss) = got s

module _ (e : Enum) where
  -- The static toString of a value.
  unfoldable pub to_string : ℕ → Lookup (List ℕ)
  to_string v = elim (lookup ◌==◌ v e.enum_to_string) [
    | none ↦ thrown (value_out_of_range v)
    | some names ↦ front names
  ]

  unfoldable pub to_value : ℕ → Lookup (List ℕ)
  to_value v = at_end (lookup ◌==◌ v e.enum_to_value) (value_out_of_range v)

  unfoldable pub to_strings : ℕ → Lookup (List (List ℕ))
  to_strings v = elim (lookup ◌==◌ v e.enum_to_string) [ none ↦ past_end | some names ↦ got [] ]

  unfoldable pub from_string : List ℕ → Lookup ℕ
  from_string str = at_end (lookup equals str e.string_to_enum) (no_such_text str)

  unfoldable pub from_integer : ℕ → Lookup ℕ
  from_integer id = at_end (lookup ◌==◌ id e.enum_to_string) (invalid_value id)

  unfoldable pub from_string_i : List ℕ → Lookup ℕ
  from_string_i str = at_end (lookup equals str e.lstring_to_enum) (text_out_of_range str)

  unfoldable pub exists : ℕ → Bool
  exists v = elim (lookup ◌==◌ v e.enum_to_string) [ none ↦ false | some names ↦ true ]

-- The names of a value, which operator[] takes for an empty vector where there are none.
abbrev pub names_or : Option (List (List ℕ)) → List (List ℕ)
names_or none = []
names_or (some names) = names

-- A call of initAddValue; `to_lower_copy` is boost's.
unfoldable pub init_add_value : (List ℕ → List ℕ) → Enum → ℕ → List ℕ → List ℕ → Enum
init_add_value to_lower_copy e v str value = record {
  enum_to_string =
      assign ◌==◌ v (names_or (lookup ◌==◌ v e.enum_to_string) ++ str ∷ []) e.enum_to_string;
  enum_to_value =
      if length value == 0 then e.enum_to_value else emplace ◌==◌ v value e.enum_to_value;
  string_to_enum = assign equals str v e.string_to_enum;
  lstring_to_enum = assign equals (to_lower_copy str) v e.lstring_to_enum;
}

-- BitEnum. An int has 32 bits, and its complement is written out.
abbrev pub int_max : ℕ
int_max = 2 ^ 32 - 1

pub complement : ℕ → ℕ
complement v = int_max - v

unfoldable pub set_flag : ℕ → ℕ → ℕ
set_flag v o = bit_or v o

unfoldable pub unset_flag : ℕ → ℕ → ℕ
unfolding complement
unset_flag v o = bit_and v (complement o)

-- A negative int is not greater than 0.
unfoldable pub is_set : ℕ → ℕ → Bool
is_set v o = let both = bit_and v o in not (both == 0) && ltb both (2 ^ 31)

-- The loop of `index` over `n` bits from `i`, which is the bit `j`.
unfoldable pub index_loop : ℕ → ℕ → ℕ → ℕ → ℕ
index_loop zero v i j = 0
index_loop (suc n) v i j =
    let next = index_loop n v (2 * i) (j + 1) in if bit_and v i == i then j else next

unfoldable pub index : ℕ → ℕ
unfolding index_loop
index v = index_loop 31 v 1 0

-- The names that the loop of toString joins: those of the bits that are set.
pub join : List ℕ → Lookup (List ℕ) → Lookup (List ℕ)
join name (got rest) = got (name ++ rest)
join name (thrown e) = thrown e
join name past_end = past_end

pub bit_names : Enum → ℕ → ℕ → ℕ → Bool → Lookup (List ℕ)
unfolding to_string join
bit_names e zero v i first = got []
bit_names e (suc n) v i first =
    let skipped = bit_names e n v (2 * i) first in
    let rest = bit_names e n v (2 * i) false in
    if bit_and v i == i
    then elim (to_string e i) [
      | got name ↦ join (if first then name else codes " | " ++ name) rest
      | thrown c ↦ thrown c
      | past_end ↦ past_end
    ]
    else skipped

-- BitEnum::toString.
pub bits_to_string : Enum → ℕ → Lookup (List ℕ)
unfolding exists to_string bit_names
bits_to_string e v = if exists e v then to_string e v else bit_names e 31 v 1 true
