-- ===== src/Database/Insert.antt =====
-- The buffered INSERT of src/Database/Insert.h and Insert.cpp. What the driver answers to a query is an
-- argument; a call lists the queries that it executes. The position of the buffer's stream is its length.
pub mod Rows
mod Tests
use lotospp.Base.{
  ℕ, ◌+◌, ◌%◌, ◌^◌, Bool, true, false, not, ◌&&◌, List, [], ◌∷◌, ◌++◌, ltb, ◌==◌, if◌then◌else◌,
  length, codes,
}

pub record Insert : Type 0 where
  pub multi_line : Bool
  pub rows : ℕ
  pub query : List ℕ
  pub buf : List ℕ

-- What a call leaves: the object, the queries that were executed, and the result.
pub record Called : Type 0 where
  pub insert : Insert
  pub executed : List (List ℕ)
  pub result : Bool

unfoldable pub set_query : Insert → List ℕ → Insert
set_query i query = record i { query = query; buf = []; rows = 0 }

abbrev pub bracketed : List ℕ → List ℕ
bracketed row = b'(' ∷ row ++ b')' ∷ []

module _ (execute_query : List ℕ → Bool) where
  unfoldable pub execute : Insert → Called
  execute i =
      let text : List ℕ = i.query ++ i.buf in
      if i.multi_line && ltb 0 (length i.buf)
      then if i.rows == 0 then record { insert = i; executed = []; result = true } else record {
        insert = record i { rows = 0; buf = [] };
        executed = text ∷ [];
        result = execute_query text;
      }
      else record { insert = i; executed = []; result = true }

  -- Behind the call of execute in addRow.
  pub add_first : Called → List ℕ → Called
  add_first c row =
      if c.result
      then record c { insert = record c.insert { buf = c.insert.buf ++ bracketed row } }
      else c

  unfoldable pub add_row : Insert → List ℕ → Called
  add_row i row =
      let counted : Insert = record i { rows = (i.rows + 1) % 2 ^ 32 } in
      let text : List ℕ = i.query ++ bracketed row in
      let size : ℕ = length i.buf in
      if i.multi_line
      then if size == 0
        then record {
          insert = record counted { buf = bracketed row };
          executed = [];
          result = true;
        }
        else if ltb 8192 size
        then add_first (execute counted) row
        else record {
          insert = record counted { buf = i.buf ++ b',' ∷ bracketed row };
          executed = [];
          result = true;
        }
      else record { insert = i; executed = text ∷ []; result = execute_query text }
