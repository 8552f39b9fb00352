-- ===== src/Common/IoUser/Saved.antt =====
-- What save and create of src/Common/IOUser.cpp do to the database.
use lotospp.Base.{
  ℕ, ◌%◌, ◌^◌, ◌≡◌, refl, Bool, true, false, not, List, [], ◌∷◌, ◌++◌, some, if◌then◌else◌, codes,
  arith, ltb, length,
}
use lotospp.Common.User.Login.{User}
use lotospp.Database.Insert.{bracketed, set_query, add_row, execute}
use lotospp.Database.MySql.{
  Call, real_query, commit_call, Answer, succeeded, MySql, new_transaction, begin,
  commit_transaction, end_transaction, query_in,
}
use lotospp.Common.IoUser.{save_query, create, create_with, create_row, insert_prefix, query_all}

if_not {ℓ} : {A : Type ℓ} (b : Bool) (x y : A) → (if not b then x else y) ≡ (if b then y else x)
if_not true x y = refl
if_not false x y = refl

module _ (server : List Call → Call → Answer) (escape : List ℕ → List ℕ) where
  -- The calls of a save that goes through, behind those before.
  abbrev pub saving : List Call → User → List Call
  saving cs u =
      cs ++ real_query (codes "BEGIN") ∷ real_query (save_query escape u) ∷ commit_call ∷ []

  -- The server accepts them one by one.
  abbrev pub AcceptsSave : List Call → User → Type 0
  AcceptsSave cs u =
      (server cs (real_query (codes "BEGIN")) ≡ succeeded)
      × (server (cs ++ real_query (codes "BEGIN") ∷ []) (real_query (save_query escape u))
          ≡ succeeded)
      × (server (cs ++ real_query (codes "BEGIN") ∷ real_query (save_query escape u) ∷ [])
            commit_call
          ≡ succeeded)

  create_with-plain :
      (row : List ℕ) (last_id : ℕ) (d : MySql)
      → let t = (begin server (new_transaction d)).0 in
        let q = query_in server t (insert_prefix ++ bracketed row) in
        let c = commit_transaction server q.0 in
        create_with server row last_id d ≡ (
          if q.1
          then (end_transaction server c.0, if c.1 then last_id % 2 ^ 64 else 0)
          else (end_transaction server q.0, 0))
  unfolding create_with set_query add_row execute query_all
  create_with-plain row last_id d =
      let some_bytes : ltb 0 (length (bracketed row)) ≡ true = ground arith in
      let q =
        query_in server (begin server (new_transaction d)).0 (insert_prefix ++ bracketed row) in
      let c = commit_transaction server q.0 in
      rw some_bytes (
        if_not q.1 (end_transaction server q.0, 0)
          (end_transaction server c.0, if c.1 then last_id % 2 ^ 64 else 0))

  -- create with a password and a driver of multi-line INSERTs is one plain INSERT in a transaction: the buffer
  -- executes the row in one query with its prefix, and the commit follows where that succeeded, also
  -- where the BEGIN did not.
  pub create-plain :
      (u : User) (password : List ℕ) (last_id : ℕ) (d : MySql)
      → u.password ≡ some password
      → let t = (begin server (new_transaction d)).0 in
        let q = query_in server t (insert_prefix ++ bracketed (create_row escape u password)) in
        let c = commit_transaction server q.0 in
        create server escape u last_id d
        ≡ some (
            if q.1
            then (end_transaction server c.0, if c.1 then last_id % 2 ^ 64 else 0)
            else (end_transaction server q.0, 0))
  unfolding create
  create-plain u password last_id d e =
      let row = create_row escape u password in ground (arith, create_with-plain row last_id d)
