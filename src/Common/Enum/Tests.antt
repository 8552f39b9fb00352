-- ===== src/Common/Enum/Tests.antt =====
-- The enumerations at concrete values.
use lotospp.Base.{ℕ, ◌<◌, ◌≡◌, refl, true, false, not, List, [], ◌∷◌, codes, lookup, assign, arith}
use lotospp.Common.Enum.{
  empty, got, to_string, exists, init_add_value, set_flag, unset_flag, is_set, index,
  bits_to_string, bit_names, join,
}
use lotospp.Common.Enum.Flags.{flag, has_bit, flags_independent, index_lowest}
use lotospp.Common.Enum.Lookups.{
  Entry, initialize, names_of, is_empty, first_name, to_string-initialize,
}

-- UserLevel.
abbrev levels : List Entry
levels =
    record { value = 0; name = codes "login"; text = [] }
    ∷ record { value = 1; name = codes "novice"; text = [] }
    ∷ record { value = 2; name = codes "user"; text = [] }
    ∷ []

abbrev unchanged : List ℕ → List ℕ
unchanged s = s

two_flags : bits_to_string (initialize unchanged levels empty) 3 ≡ got (codes "novice | user")
unfolding bits_to_string bit_names join to_string exists initialize init_add_value lookup assign
two_flags = refl

to_string-initialize_example :
    (to_string (initialize unchanged levels empty) 1 ≡ first_name 1 (names_of 1 levels))
    × (exists (initialize unchanged levels empty) 1 ≡ not (is_empty (names_of 1 levels)))
to_string-initialize_example = to_string-initialize unchanged levels 1

flags_independent_example :
    (is_set (set_flag 5 (flag 1)) (flag 2) ≡ is_set 5 (flag 2))
    × (is_set (unset_flag 5 (flag 1)) (flag 2) ≡ is_set 5 (flag 2))
    × (set_flag 5 (flag 1) < 128)
    × (unset_flag 5 (flag 1) < 128)
flags_independent_example = flags_independent 5 1 2 (omega arith) (omega arith) (omega arith)

lowest_of_twelve :
    ((k : ℕ)
      → k < 31
      → has_bit 12 k ≡ true
      → ((i : ℕ) → i < k → has_bit 12 i ≡ false)
      → index 12 ≡ k)
    × (((i : ℕ) → i < 31 → has_bit 12 i ≡ false) → index 12 ≡ 0)
lowest_of_twelve = index_lowest 12
