-- ===== src/Database/MySql/Sessions.antt =====
-- What a Transaction of src/Database/Transaction.h leaves in the session of the MySQL driver.
use lotospp.Base.{
  ℕ, ◌≡◌, refl, ◌⊎◌, inl, inr, Bool, true, false, List, [], ◌∷◌, ◌++◌, if◌then◌else◌, equals, codes,
  arith,
}
use lotospp.Database.MySql.{
  Call, real_query, rollback_call, commit_call, Answer, succeeded, failed, MySql, ask, note_lost,
  internal_query, commit, Transaction, is_start, begin, commit_transaction, query_in,
}

-- Whether a transaction is open in the session behind the calls.
unfoldable pub open_after : Bool → Call → Bool
open_after is_begun (real_query text) = if equals text (codes "BEGIN") then true else is_begun
open_after is_begun rollback_call = false
open_after is_begun commit_call = false

unfoldable pub is_open_from : Bool → List Call → Bool
is_open_from is_begun [] = is_begun
is_open_from is_begun (c ∷ cs) = is_open_from (open_after is_begun c) cs

abbrev pub is_open : List Call → Bool
is_open = is_open_from false

-- What is done while a Transaction lives.
pub data Step : Type 0 where
  begins commits : Step
  asks : List ℕ → Step

-- The queries begin no transaction of their own.
abbrev pub IsPlain : List Step → Type 0
IsPlain [] = Unit
IsPlain (begins ∷ steps) = IsPlain steps
IsPlain (commits ∷ steps) = IsPlain steps
IsPlain (asks text ∷ steps) = (equals text (codes "BEGIN") ≡ false) × IsPlain steps

-- The session's transaction is open only where the object would roll it back, or the connection is lost.
abbrev IsGuarded : Transaction → Type 0
IsGuarded t =
    t.database.connected ≡ true → is_open t.database.calls ≡ true → is_start t.state ≡ true

module _ (server : List Call → Call → Answer) where
  unfoldable pub run : List Step → Transaction → Transaction
  run [] t = t
  run (begins ∷ steps) t = run steps (begin server t).0
  run (commits ∷ steps) t = run steps (commit_transaction server t).0
  run (asks text ∷ steps) t = run steps (query_in server t text).0

Answer-cases : (a : Answer) → (a ≡ succeeded) ⊎ ((lost : Bool) × (a ≡ failed lost))
Answer-cases succeeded = inl refl
Answer-cases (failed lost) = inr (lost, refl)

abbrev pub asked : MySql → Call → MySql
asked d c = record d { calls = d.calls ++ c ∷ [] }

-- A query or a commit that the driver reports as done was sent and answered with success.
module _ (server : List Call → Call → Answer) where
  pub internal_query-true :
      (d : MySql) (text : List ℕ)
      → (internal_query server d text).1 ≡ true
      → (server d.calls (real_query text) ≡ succeeded)
        × ((internal_query server d text).0 ≡ asked d (real_query text))
  unfolding internal_query ask note_lost
  internal_query-true d text h = elim (Answer-cases (server d.calls (real_query text))) [
    | inl e ↦ (e, ground arith)
    | inr (lost, e) ↦ absurd (ground arith)
  ]

  pub commit-true :
      (d : MySql)
      → (commit server d).1 ≡ true
      → (server d.calls commit_call ≡ succeeded) × ((commit server d).0 ≡ asked d commit_call)
  unfolding commit ask
  commit-true d h = elim (Answer-cases (server d.calls commit_call)) [
    | inl e ↦ (e, ground arith)
    | inr (lost, e) ↦ absurd (ground arith)
  ]
