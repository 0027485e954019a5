-- ===== src/Store/Statement.antt =====
-- `Statement` and the one-statement calls of `Database`, storage/database.cpp.
use vacps.Prelude.{
  ℕ, zero, suc, ◌+◌, ◌%◌, List, [], ◌∷◌, ◌++◌, map, Bool, false, Option, none, some, ltb, leb,
  if◌then◌else◌, length,
}
use vacps.Process.State.{Bytes}
use vacps.Process.Budget.{u64_mod}
use vacps.Store.{
  SqlValue, sql_null, sql_int, sql_real, sql_text, sql_blob, QueryResult, prepare_failed,
  no_statement, execute_failed, query_failed, unfinished, exec_failed, bind_failed,
  exceeded_max_bytes, exceeded_max_rows, unexpected, value, Prepared, prepared, nothing_prepared,
  not_prepared, StepCode, done, row, step_failed, Column, null_column, integer_column, float_column,
  blob_column, text_column, Sqlite, Ran, then_do,
}

abbrev pub cell_bytes : SqlValue → ℕ
cell_bytes sql_null = 0
cell_bytes (sql_int n) = 8
cell_bytes (sql_real n) = 8
cell_bytes (sql_text s) = length s
cell_bytes (sql_blob s) = length s

abbrev pub or_empty : Option Bytes → Bytes
or_empty none = []
or_empty (some s) = s

abbrev pub column_value : Column → SqlValue
column_value null_column = sql_null
column_value (integer_column n) = sql_int n
column_value (float_column n) = sql_real n
column_value (blob_column s) = sql_blob (or_empty s)
column_value (text_column s) = sql_text (or_empty s)

-- `approximate_bytes +=` for each name and each cell.
unfoldable pub add_names : ℕ → List Bytes → ℕ
add_names n [] = n
add_names n (name ∷ rest) = add_names ((n + length name) % u64_mod) rest

unfoldable pub add_cells : ℕ → List SqlValue → ℕ
add_cells n [] = n
add_cells n (cell ∷ rest) = add_cells ((n + cell_bytes cell) % u64_mod) rest

abbrev pub over : Option ℕ → ℕ → Bool
over none n = false
over (some limit) n = ltb limit n

abbrev pub or_zero : Option ℕ → ℕ
or_zero none = 0
or_zero (some limit) = limit

module _ (q : Sqlite) where
  unfoldable pub bind_from : q.Db → q.Stmt → ℕ → List SqlValue → Ran q.Db (Unit {0})
  bind_from db stmt idx [] = record { db = db; result = value tt }
  bind_from db stmt idx (param ∷ rest) =
      let bound = q.bind db stmt idx param in
      let later = bind_from (bound.0) stmt (idx + 1) rest in
      if bound.1 then later else record { db = bound.0; result = unexpected (bind_failed idx) }

  abbrev pub bind_all : q.Db → q.Stmt → List SqlValue → Ran q.Db (Unit {0})
  bind_all db stmt params = bind_from db stmt 1 params

  -- The destructor of `StatementReset`.
  abbrev pub reset_after {ℓ} : {A : Type ℓ} → Bool → q.Stmt → Ran q.Db A → Ran q.Db A
  reset_after enabled stmt r = record {
    db = if enabled then q.reset r.db stmt else r.db;
    result = r.result;
  }

  abbrev pub executed : q.Db → StepCode → Ran q.Db (Unit {0})
  executed db step_failed = record { db = db; result = unexpected execute_failed }
  executed db _ = record { db = db; result = value tt }

  unfoldable pub execute_impl : q.Db → q.Stmt → List SqlValue → Bool → Ran q.Db (Unit {0})
  execute_impl db stmt params enabled = reset_after enabled stmt (
      then_do (bind_all db stmt params)
        (λ db u. executed ((q.step db stmt).0) ((q.step db stmt).1)))

  -- A row behind those that were read.
  abbrev pub read_row :
      ℕ
      → Option ℕ
      → List (List SqlValue)
      → List SqlValue
      → ℕ
      → (List (List SqlValue) → Ran q.Db (List (List SqlValue)))
      → q.Db
      → Ran q.Db (List (List SqlValue))
  read_row max_rows max_bytes rows cells bytes more db =
      if leb max_rows (length rows)
      then record { db = db; result = unexpected (exceeded_max_rows max_rows) }
      else if over max_bytes bytes
      then record { db = db; result = unexpected (exceeded_max_bytes (or_zero max_bytes) bytes) }
      else more (rows ++ cells ∷ [])

  -- The loop over the rows, with the rows and the bytes so far.
  unfoldable pub rows_loop :
      ℕ → q.Db → q.Stmt → ℕ → Option ℕ → List (List SqlValue) → ℕ → Ran q.Db (List (List SqlValue))
  rows_loop zero db stmt max_rows max_bytes rows bytes = record {
    db = db;
    result = unexpected unfinished;
  }
  rows_loop (suc n) db stmt max_rows max_bytes rows bytes =
      let next = q.step db stmt in
      let cells = map column_value (q.row_columns (next.0) stmt) in
      let bytes₁ = add_cells bytes cells in
      elim next.1 [
        | done ↦ record { db = next.0; result = value rows }
        | step_failed ↦ record { db = next.0; result = unexpected query_failed }
        | row ↦
            read_row max_rows max_bytes rows cells bytes₁
              (λ rows₁. rows_loop n (next.0) stmt max_rows max_bytes rows₁ bytes₁) (next.0)
      ]

  abbrev pub all_rows : q.Db → q.Stmt → ℕ → Option ℕ → List Bytes → ℕ → Ran q.Db QueryResult
  all_rows db stmt max_rows max_bytes columns bytes =
      if over max_bytes bytes
      then record { db = db; result = unexpected (exceeded_max_bytes (or_zero max_bytes) bytes) }
      else then_do (rows_loop (suc max_rows) db stmt max_rows max_bytes [] bytes) (λ db rows.
        record { db = db; result = value (record { columns = columns; rows = rows }) })

  unfoldable pub query_impl :
      q.Db → q.Stmt → List SqlValue → ℕ → Option ℕ → Bool → Ran q.Db QueryResult
  query_impl db stmt params max_rows max_bytes enabled = reset_after enabled stmt (
      then_do (bind_all db stmt params) (λ db u.
        all_rows db stmt max_rows max_bytes (q.column_names db stmt)
          (add_names 0 (q.column_names db stmt))))

  abbrev pub prepared_as : q.Db → Prepared q.Stmt → Ran q.Db q.Stmt
  prepared_as db (prepared stmt) = record { db = db; result = value stmt }
  prepared_as db nothing_prepared = record { db = db; result = unexpected no_statement }
  prepared_as db not_prepared = record { db = db; result = unexpected prepare_failed }

  abbrev pub prepare : q.Db → Bytes → Ran q.Db q.Stmt
  prepare db sql = prepared_as ((q.prepare db sql).0) ((q.prepare db sql).1)

  -- The statement ends with the call.
  abbrev pub finalized {ℓ} : {A : Type ℓ} → q.Stmt → Ran q.Db A → Ran q.Db A
  finalized stmt r = record { db = q.finalize r.db stmt; result = r.result }

  abbrev pub execute : q.Db → Bytes → List SqlValue → Ran q.Db (Unit {0})
  execute db sql params =
      then_do (prepare db sql) (λ db stmt. finalized stmt (execute_impl db stmt params false))

  abbrev pub query : q.Db → Bytes → List SqlValue → ℕ → Option ℕ → Ran q.Db QueryResult
  query db sql params max_rows max_bytes =
      then_do (prepare db sql)
        (λ db stmt. finalized stmt (query_impl db stmt params max_rows max_bytes false))

  abbrev pub exec_result : q.Db → Option Bytes → Ran q.Db (Unit {0})
  exec_result db none = record { db = db; result = value tt }
  exec_result db (some message) = record { db = db; result = unexpected (exec_failed message) }

  abbrev pub exec : q.Db → Bytes → Ran q.Db (Unit {0})
  exec db [] = record { db = db; result = value tt }
  exec db (c ∷ cs) = exec_result ((q.exec db (c ∷ cs)).0) ((q.exec db (c ∷ cs)).1)
