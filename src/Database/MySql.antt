-- ===== src/Database/MySql.antt =====
-- The driver of src/Database/Drivers/MySQL.cpp with its result sets, and Transaction of
-- src/Database/Transaction.h. What the server answers to a call is an argument, which may look at all
-- the calls before it. The driver is the one behind a Driver, so executeQuery and storeQuery
-- are internalQuery and internalSelectQuery.
pub mod Sessions
pub mod Numbers
use lotospp.Base.{
  ℕ, zero, suc, ◌+◌, Bool, true, false, not, List, [], ◌∷◌, ◌++◌, Option, none, some, if◌then◌else◌,
  codes, equals, lookup, assign, get_elem?,
}

-- The calls of the client library that the server answers.
pub data Call : Type 0 where
  real_query : List ℕ → Call
  rollback_call commit_call : Call

-- A call succeeds, or fails with the connection lost or kept.
pub data Answer : Type 0 where
  succeeded : Answer
  failed : Bool → Answer

-- `m_connected`, and the calls so far.
pub record MySql : Type 0 where
  pub connected : Bool
  pub calls : List Call

abbrev pub Row : Type 0
Row = List (Option (List ℕ))

-- The names of the columns with their numbers, the row that is read, and the rows behind it.
pub record MySqlResult : Type 0 where
  pub list_names : List (List ℕ × ℕ)
  pub row : Option Row
  pub rest : List Row

-- The loop of the constructor over the names of the fields.
unfoldable pub number_names : ℕ → List (List ℕ) → List (List ℕ × ℕ) → List (List ℕ × ℕ)
number_names i [] names = names
number_names i (f ∷ fields) names = number_names (i + 1) fields (assign equals f i names)

pub create_result : List (List ℕ) → List Row → MySqlResult
unfolding number_names
create_result fields rows = record {
  list_names = number_names 0 fields [];
  row = none;
  rest = rows;
}

-- The next row, and whether there is one.
unfoldable pub advance : MySqlResult → MySqlResult × Bool
advance r = elim r.rest [
  | [] ↦ (record r { row = none }, false)
  | row ∷ rows ↦ (record r { row = some row; rest = rows }, true)
]

-- What a getter finds: no such name, a NULL, or a text. `undefined_field` is a read without a row.
pub data Field : Type 0 where
  no_field null_field undefined_field : Field
  text_field : List ℕ → Field

abbrev pub cell : Option (Option (List ℕ)) → Field
cell none = undefined_field
cell (some none) = null_field
cell (some (some text)) = text_field text

unfoldable pub get_field : MySqlResult → List ℕ → Field
get_field r name = elim (lookup equals name r.list_names) [
  | none ↦ no_field
  | some i ↦ elim r.row [ none ↦ undefined_field | some row ↦ cell (get_elem? row i) ]
]

-- `none` is a read without a row.
pub get_data_string : MySqlResult → List ℕ → Option (List ℕ)
unfolding get_field
get_data_string r name = elim (get_field r name) [
  | no_field ↦ some []
  | null_field ↦ some []
  | undefined_field ↦ none
  | text_field text ↦ some text
]

-- escapeBlob of a text; `escape` is the library's, whose output is read up to its NUL.
pub escape_string : (List ℕ → List ℕ) → List ℕ → List ℕ
escape_string escape s = b'\'' ∷ escape s ++ b'\'' ∷ []

module _ (server : List Call → Call → Answer) where
  -- A call of the library, and its answer.
  unfoldable pub ask : MySql → Call → MySql × Answer
  ask d c = (record d { calls = d.calls ++ c ∷ [] }, server d.calls c)

  -- Behind a query: a lost connection is noted.
  unfoldable pub note_lost : MySql × Answer → MySql × Bool
  note_lost (d, succeeded) = (d, true)
  note_lost (d, failed lost) = (if lost then record d { connected = false } else d, false)

  unfoldable pub internal_query : MySql → List ℕ → MySql × Bool
  internal_query d query = if d.connected then note_lost (ask d (real_query query)) else (d, false)

  abbrev is_success : Answer → Bool
  is_success succeeded = true
  is_success (failed lost) = false

  unfoldable pub rollback : MySql → MySql × Bool
  rollback d =
      let (d', a) = ask d rollback_call in if d.connected then (d', is_success a) else (d, false)

  unfoldable pub commit : MySql → MySql × Bool
  commit d =
      let (d', a) = ask d commit_call in if d.connected then (d', is_success a) else (d, false)

  abbrev pub begin_text : List ℕ
  begin_text = codes "BEGIN"

  unfoldable pub begin_transaction : MySql → MySql × Bool
  begin_transaction d = internal_query d begin_text

  -- `stored` is what mysql_store_result gives behind the query: the names and rows, or an error, which may be
  -- a lost connection.
  pub select_result : MySql → Option (List (List ℕ) × List Row) → Bool → MySql × Option MySqlResult
  unfolding create_result advance
  select_result d none lost = (if lost then record d { connected = false } else d, none)
  select_result d (some (fields, rows)) lost =
      let (r, more) = advance (create_result fields rows) in (d, if more then some r else none)

  pub internal_select_query :
      MySql → List ℕ → Option (List (List ℕ) × List Row) → Bool → MySql × Option MySqlResult
  unfolding select_result
  internal_select_query d query stored lost =
      let d' = (note_lost (ask d (real_query query))).0 in
      if d.connected then select_result d' stored lost else (d, none)

-- Transaction.
pub data TransactionState : Type 0 where
  no_start start committed : TransactionState

pub record Transaction : Type 0 where
  pub state : TransactionState
  pub database : MySql

abbrev pub is_start : TransactionState → Bool
is_start no_start = false
is_start start = true
is_start committed = false

unfoldable pub new_transaction : MySql → Transaction
new_transaction d = record { state = no_start; database = d }

module _ (server : List Call → Call → Answer) where
  unfoldable pub begin : Transaction → Transaction × Bool
  begin t =
      let (d, ok) = begin_transaction server t.database in
      (record { state = start; database = d }, ok)

  unfoldable pub commit_transaction : Transaction → Transaction × Bool
  commit_transaction t =
      let (d, ok) = commit server t.database in
      if is_start t.state then (record { state = committed; database = d }, ok) else (t, false)

  -- The destructor.
  unfoldable pub end_transaction : Transaction → MySql
  end_transaction t = if is_start t.state then (rollback server t.database).0 else t.database

  -- A query of the driver while the transaction lives.
  unfoldable pub query_in : Transaction → List ℕ → Transaction × Bool
  query_in t text =
      let (d, ok) = internal_query server t.database text in (record t { database = d }, ok)
