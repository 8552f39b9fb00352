-- ===== src/Common/IoUser.antt =====
-- save and create of src/Common/IOUser.cpp over a Transaction of the MySQL driver and a buffered INSERT.
-- What the server answers, its escaping of texts and the id of its last row are arguments.
pub mod Saved
pub mod Decimal
mod Tests
use lotospp.Base.{
  ℕ, zero, suc, ◌+◌, ◌/◌, ◌%◌, ◌^◌, Bool, true, false, not, ◌&&◌, ◌||◌, List, [], ◌∷◌, ◌++◌, Option,
  none, some, if◌then◌else◌, ltb, codes,
}
use lotospp.Common.User.Login.{User, Level, login_level, novice_level, stored_level}
use lotospp.Database.MySql.{
  Call, Answer, MySql, internal_query, escape_string, Transaction, new_transaction, begin,
  commit_transaction, end_transaction, query_in,
}
use lotospp.Database.Insert.{Insert, Called, set_query, add_row, execute}

-- A number in decimal, as a stream writes it; the fuel is the number of its digits or more.
unfoldable pub decimal_from : ℕ → ℕ → List ℕ → List ℕ
decimal_from zero n digits = digits
decimal_from (suc fuel) n digits =
    let more = (b'0' + n % 10) ∷ digits in
    let rest = decimal_from fuel (n / 10) more in if ltb n 10 then more else rest

-- Twenty digits are enough for 64 bits.
pub decimal : ℕ → List ℕ
unfolding decimal_from
decimal n = decimal_from 20 n []

abbrev pub level_value : Level → ℕ
level_value login_level = 0
level_value novice_level = 1
level_value (stored_level n) = n

unfoldable pub save_query : (List ℕ → List ℕ) → User → List ℕ
save_query escape u =
    codes "UPDATE users SET  login="
    ++ escape_string escape u.name
    ++ codes ", level="
    ++ decimal (level_value u.level)
    ++ codes " WHERE id="
    ++ decimal u.guid

abbrev pub insert_prefix : List ℕ
insert_prefix = codes "INSERT INTO users (login, password, level) VALUES "

-- The row of a new user.
unfoldable pub create_row : (List ℕ → List ℕ) → User → List ℕ → List ℕ
create_row escape u password =
    escape_string escape u.name
    ++ codes ","
    ++ escape_string escape password
    ++ codes ","
    ++ decimal (level_value u.level)

module _ (server : List Call → Call → Answer) where
  -- The driver behind the destructor, and the result.
  unfoldable pub ends : Transaction × Bool → MySql × Bool
  ends (t, result) = (end_transaction server t, result)

  unfoldable pub save : (List ℕ → List ℕ) → User → MySql → MySql × Bool
  save escape u d =
      let (t, begun) = begin server (new_transaction d) in
      let (t', updated) = query_in server t (save_query escape u) in
      if not begun
      then ends (t, false)
      else if not updated
      then ends (t', false)
      else ends (commit_transaction server t')

  -- The queries that the INSERT executes, on the driver.
  unfoldable pub query_all : List (List ℕ) → Transaction → Transaction
  query_all [] t = t
  query_all (text ∷ texts) t = query_all texts (query_in server t text).0

  -- The answer to a query on the driver as it is.
  abbrev pub answer_in : Transaction → List ℕ → Bool
  answer_in t text = (query_in server t text).1

  -- create with a driver of multi-line INSERTs and a password. `last_id` is what the server gives for
  -- the last row. An id of 0 is also the `false` of a failed INSERT.
  unfoldable pub create_with : List ℕ → ℕ → MySql → MySql × ℕ
  create_with row last_id d =
      let t = (begin server (new_transaction d)).0 in
      let i : Insert =
        set_query (record { multi_line = true; rows = 0; query = []; buf = [] }) insert_prefix in
      let added = add_row (answer_in t) i row in
      let t₁ = query_all added.executed t in
      let executed = execute (answer_in t₁) added.insert in
      let t₂ = query_all executed.executed t₁ in
      let (t₃, committed) = commit_transaction server t₂ in
      if not added.result
      then (end_transaction server t₁, 0)
      else if not executed.result
      then (end_transaction server t₂, 0)
      else (end_transaction server t₃, if committed then last_id % 2 ^ 64 else 0)

  -- `none` is a null password.
  unfoldable pub create : (List ℕ → List ℕ) → User → ℕ → MySql → Option (MySql × ℕ)
  create escape u last_id d = elim u.password [
    | none ↦ none
    | some password ↦ some (create_with (create_row escape u password) last_id d)
  ]
