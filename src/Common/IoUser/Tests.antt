-- ===== src/Common/IoUser/Tests.antt =====
-- Saved and created users at a concrete server.
use lotospp.Base.{
  negsuc, arith, lookup, none, ℕ, ◌%◌, ◌^◌, ◌≡◌, refl, true, false, List, [], ◌∷◌, ◌++◌, some,
  if◌then◌else◌, codes,
}
use lotospp.Common.User.Login.{User, login_prompt, novice_level}
use lotospp.Database.Insert.{bracketed}
use lotospp.Database.MySql.{
  MySqlResult, get_field, Call, commit_call, Answer, succeeded, failed, MySql, begin,
  commit_transaction, query_in, end_transaction, new_transaction,
}
use lotospp.Common.IoUser.{create, create_row, insert_prefix, decimal, decimal_from}
use lotospp.Common.IoUser.Decimal.{get_data-decimal}
use lotospp.Database.MySql.Numbers.{
  read_uint, atoi, get_data_uint, get_data_int, to_unsigned, to_signed, read_sign, sign,
  after_space, is_space, digits, is_digit,
}
use lotospp.Common.IoUser.Saved.{create-plain}

decimal_of_4096 : decimal 4096 ≡ codes "4096"
unfolding decimal decimal_from
decimal_of_4096 = refl

-- A server that refuses to commit.
abbrev stubborn : List Call → Call → Answer
stubborn cs commit_call = failed false
stubborn cs _ = succeeded

abbrev unchanged : List ℕ → List ℕ
unchanged s = s

abbrev connected : MySql
connected = record { connected = true; calls = [] }

abbrev anna : User
anna = record {
  stage = login_prompt;
  level = novice_level;
  name = codes "Anna";
  password = some (codes "hash");
  attempts = 0;
  guid = 4;
}

create-plain_anna :
    let t = (begin stubborn (new_transaction connected)).0 in
    let q =
      query_in stubborn t (insert_prefix ++ bracketed (create_row unchanged anna (codes "hash"))) in
    let c = commit_transaction stubborn q.0 in
    create stubborn unchanged anna 9 connected
    ≡ some (
        if q.1
        then (end_transaction stubborn c.0, if c.1 then 9 % 2 ^ 64 else 0)
        else (end_transaction stubborn q.0, 0))
create-plain_anna = create-plain stubborn unchanged anna (codes "hash") 9 connected refl

-- A row whose id is no int32_t.
abbrev late_row : MySqlResult
late_row = record {
  list_names = (codes "id", 0) ∷ [];
  row = some (some (decimal 3000000000) ∷ []);
  rest = [];
}

get_data-decimal_example :
    (get_data_uint late_row (codes "id") ≡ some 3000000000)
    × (get_data_int late_row (codes "id") ≡ none)
unfolding get_field lookup
get_data-decimal_example = get_data-decimal late_row (codes "id") 3000000000 refl (omega arith)

-- Space, a sign and what stands behind the digits.
numbers :
    (read_uint (codes " 42x") ≡ 42)
    × (read_uint (codes "-1") ≡ 4294967295)
    × (read_uint (codes "99999999999") ≡ 4294967295)
    × (atoi 32 (codes "-7") ≡ some (negsuc 6))
unfolding read_uint to_unsigned atoi to_signed read_sign sign after_space is_space digits is_digit
numbers = (refl, refl, refl, refl)
