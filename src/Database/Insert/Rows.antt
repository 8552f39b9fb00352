-- ===== src/Database/Insert/Rows.antt =====
-- Which rows the INSERT of src/Database/Insert.cpp executes.
use lotospp.Base.{
  ℕ, ◌+◌, ◌^◌, ◌≤◌, ◌<◌, ◌≡◌, sym, ap, Bool, true, List, [], ◌∷◌, ◌++◌, length, length-append,
  append-nil, append_assoc, arith,
}
use lotospp.Database.Insert.{Insert, Called, bracketed, set_query, execute, add_first, add_row}

-- The rows behind the first, each with its comma.
unfoldable pub more_rows : List (List ℕ) → List ℕ
more_rows [] = []
more_rows (row ∷ rows) = b',' ∷ bracketed row ++ more_rows rows

length-next :
    (buf row : List ℕ) → length (buf ++ b',' ∷ bracketed row) ≡ length buf + (length row + 3)
length-next buf row =
    omega (arith, length-append buf (b',' ∷ bracketed row), length-append row (b')' ∷ []))

length-more_rows :
    (row : List ℕ) (rows : List (List ℕ))
    → length (more_rows (row ∷ rows)) ≡ length row + 3 + length (more_rows rows)
unfolding more_rows
length-more_rows row rows =
    omega (arith, length-append (bracketed row) (more_rows rows), length-append row (b')' ∷ []))

module _ (execute_query : List ℕ → Bool) where
  -- The rows are added one by one; the object at the end, and all the queries on the way.
  unfoldable pub add_rows : Insert → List (List ℕ) → Insert × List (List ℕ)
  add_rows i [] = (i, [])
  add_rows i (row ∷ rows) =
      let c : Called = add_row execute_query i row in
      let (i', queries) = add_rows c.insert rows in (i', c.executed ++ queries)

  add_row-short :
      (i : Insert) (row : List ℕ)
      → i.multi_line ≡ true
      → 0 < length i.buf
      → length i.buf ≤ 8192
      → i.rows ≤ length i.buf
      → add_row execute_query i row ≡ record {
        insert = record i { rows = i.rows + 1; buf = i.buf ++ b',' ∷ bracketed row };
        executed = [];
        result = true;
      }
  unfolding add_row
  add_row-short i row m p q r = ground arith

  -- Rows behind others in the buffer, as long as it holds at most 8192 bytes.
  add_rows-more :
      (rows : List (List ℕ)) (i : Insert)
      → i.multi_line ≡ true
      → 0 < i.rows
      → i.rows ≤ length i.buf
      → length i.buf + length (more_rows rows) ≤ 8192
      → (n : ℕ) × (add_rows i rows ≡ (record i { rows = n; buf = i.buf ++ more_rows rows }, []))
        × (0 < n)
  unfolding add_rows more_rows
  add_rows-more [] i m p q l =
      (i.rows, ap (λ b. (record i { buf = b }, [])) (sym (append-nil i.buf)), p)
  add_rows-more (row ∷ rows) i m p q l =
      let next : Insert = record i { rows = i.rows + 1; buf = i.buf ++ b',' ∷ bracketed row } in
      let e = add_row-short i row m (omega arith) (omega arith) q in
      let k = length-next i.buf row in
      let len = length-more_rows row rows in
      let (n, f, z) = add_rows-more rows next m (omega arith) (omega arith) (omega arith) in
      (n, ground (arith, append_assoc i.buf (b',' ∷ bracketed row) (more_rows rows)), z)

  add_row-first :
      (i : Insert) (query row : List ℕ)
      → i.multi_line ≡ true
      → add_row execute_query (set_query i query) row ≡ record {
        insert = record i { query = query; buf = bracketed row; rows = 1 };
        executed = [];
        result = true;
      }
  unfolding add_row set_query
  add_row-first i query row m = ground arith

  execute_full :
      (i : Insert)
      → i.multi_line ≡ true
      → 0 < i.rows
      → 0 < length i.buf
      → ((execute execute_query i).executed ≡ (i.query ++ i.buf) ∷ [])
        × ((execute execute_query i).result ≡ execute_query (i.query ++ i.buf))
  unfolding execute
  execute_full i m p q = (ground arith, ground arith)

  -- On a driver with multi-line INSERTs, rows that fit 8192 bytes are executed by `execute` in one
  -- query: the prototype with all rows in brackets, in their order and with commas between them.
  pub execute-add_rows :
      (i : Insert) (query row : List ℕ) (rows : List (List ℕ))
      → i.multi_line ≡ true
      → length row + 2 + length (more_rows rows) ≤ 8192
      → (i' : Insert) × (add_rows (set_query i query) (row ∷ rows) ≡ (i', []))
        × ((execute execute_query i').executed ≡ (query ++ (bracketed row ++ more_rows rows)) ∷ [])
        × ((execute execute_query i').result
            ≡ execute_query (query ++ (bracketed row ++ more_rows rows)))
  unfolding add_rows set_query
  execute-add_rows i query row rows m l =
      let first : Insert = record i { query = query; buf = bracketed row; rows = 1 } in
      let k = length-append row (b')' ∷ []) in
      let (n, e, z) = add_rows-more rows first m (omega arith) (omega arith) (omega arith) in
      let f = add_row-first i query row m in
      let last : Insert = record first { rows = n; buf = bracketed row ++ more_rows rows } in
      let (x, y) = execute_full last m z (omega arith) in (last, ground arith, x, y)

  -- A row that comes when the buffer holds more than 8192 bytes is put into the buffer that was just
  -- executed without being counted: if it is the last, `execute` reports success and executes nothing. The driver
  -- has multi-line INSERTs, accepts the query, and the count does not wrap.
  pub last_row_lost :
      (i : Insert) (row : List ℕ)
      → i.multi_line ≡ true
      → 8192 < length i.buf
      → i.rows + 1 < 2 ^ 32
      → execute_query (i.query ++ i.buf) ≡ true
      → ((add_row execute_query i row).executed ≡ (i.query ++ i.buf) ∷ [])
        × ((add_row execute_query i row).insert.buf ≡ bracketed row)
        × ((execute execute_query (add_row execute_query i row).insert).executed ≡ [])
        × ((execute execute_query (add_row execute_query i row).insert).result ≡ true)
  unfolding add_row execute add_first
  last_row_lost i row m l n q = (ground arith, ground arith, ground arith, ground arith)
