-- ===== src/Store/Performed.antt =====
-- The work of a transaction's steps, as the calls of SQLite that make it.
use vacps.Prelude.{
  ℕ, zero, suc, ◌+◌, ◌≡◌, ◌≢◌, refl, sym, subst, ◌∙◌, List, [], ◌∷◌, ◌++◌, append-nil, append_assoc,
  map, true, Option, some, get_elem?, leb, length, if-split, if-keeps,
}
use vacps.Process.State.{Bytes}
use vacps.Store.{
  SqlValue, RunResult, StepType, run_step, query_step, TransactionStep, TransactionResult,
  run_result, query_result, Result, unexpected, value, prepared, StepCode, done, row, step_failed,
  Sqlite, Ran, then_do_lem,
}
use vacps.Store.Statement.{
  column_value, add_cells, over, bind_from, bind_all, executed, execute_impl, rows_loop,
}
use vacps.Store.Transaction.{Cache, Work}

-- What holds of a result unless it is an error.
abbrev pub OnValue {ℓ κ} : {A : Type ℓ} → (A → Type κ) → Result A → Type κ
OnValue P (unexpected e) = Unit
OnValue P (value a) = P a

pub OnValue-map {ℓ κ μ} :
    {A : Type ℓ} {P : A → Type κ} {Q : A → Type μ} (x : Result A)
    → ((a : A) → P a → Q a)
    → OnValue P x
    → OnValue Q x
OnValue-map (unexpected e) f h = tt
OnValue-map (value a) f h = f a h

module _ (q : Sqlite) where
  -- All parameters are bound, in order, from an index on.
  pub data Bound (stmt : q.Stmt) : ℕ → List SqlValue → q.Db → q.Db → Type 0 where
    all_bound : {idx : ℕ} {db : q.Db} → Bound stmt idx [] db db
    one_bound :
        {idx : ℕ} {param : SqlValue} {rest : List SqlValue} {db after : q.Db}
        → (q.bind db stmt idx param).1 ≡ true
        → Bound stmt (idx + 1) rest (q.bind db stmt idx param).0 after
        → Bound stmt idx (param ∷ rest) db after

  -- All rows of a statement are fetched, in order, until it is done.
  pub data Fetched (stmt : q.Stmt) : List (List SqlValue) → q.Db → q.Db → Type 0 where
    no_more : {db : q.Db} → (q.step db stmt).1 ≡ done → Fetched stmt [] db (q.step db stmt).0
    one_more :
        {rows : List (List SqlValue)} {db after : q.Db}
        → (q.step db stmt).1 ≡ row
        → Fetched stmt rows (q.step db stmt).0 after
        → Fetched stmt (map column_value (q.row_columns (q.step db stmt).0 stmt) ∷ rows) db after

  abbrev pub run_of : q.Db → RunResult
  run_of db = record { changes = q.changes db; last_insert_rowid = q.last_insert_rowid db }

  -- A statement is run for a step: its parameters are bound, it is stepped once or until its rows
  -- are fetched, and reset.
  pub data Performed (step : TransactionStep) (stmt : q.Stmt)
      : StepType → TransactionResult → q.Db → q.Db → Type 0 where
    was_run :
        {db ready : q.Db}
        → Bound stmt 1 step.params db ready
        → (q.step ready stmt).1 ≢ step_failed
        → Performed step stmt run_step
            (run_result (run_of (q.reset (q.step ready stmt).0 stmt)))
            db
            (q.reset (q.step ready stmt).0 stmt)
    was_queried :
        {db ready after : q.Db} {rows : List (List SqlValue)}
        → Bound stmt 1 step.params db ready
        → Fetched stmt rows ready after
        → Performed step stmt query_step
            (query_result (record { columns = q.column_names ready stmt; rows = rows }))
            db
            (q.reset after stmt)

  -- The statement for a text is one that was prepared from it in this transaction, or is prepared.
  pub data Obtained (sql : Bytes) (stmt : q.Stmt) : Work q → Work q → Type 0 where
    cached :
        {db : q.Db} {cache : Cache q} (i : ℕ)
        → get_elem? cache i ≡ some (sql, stmt)
        → Obtained sql stmt (db, cache) (db, cache)
    newly :
        {db : q.Db} {cache : Cache q}
        → (q.prepare db sql).1 ≡ prepared stmt
        → Obtained sql stmt (db, cache) ((q.prepare db sql).0, cache ++ (sql, stmt) ∷ [])

  -- The steps in order, one result for each.
  pub data Performs : List TransactionStep → List TransactionResult → Work q → Work q → Type 0 where
    nothing_left : {work : Work q} → Performs [] [] work work
    perform :
        {step : TransactionStep} {steps : List TransactionStep} {r : TransactionResult}
        {rs : List TransactionResult} {work ready after : Work q} {stmt : q.Stmt} {db : q.Db}
        → Obtained step.sql stmt work ready
        → Performed step stmt step.type r (ready.0) db
        → Performs steps rs (db, ready.1) after
        → Performs (step ∷ steps) (r ∷ rs) work after

  pub bind_from-Bound :
      (db : q.Db) (stmt : q.Stmt) (idx : ℕ) (params : List SqlValue)
      → let r = bind_from q db stmt idx params in
        OnValue (λ (u : Unit {0}). Bound stmt idx params db r.db) r.result
  unfolding bind_from
  bind_from-Bound db stmt idx [] = all_bound
  bind_from-Bound db stmt idx (param ∷ rest) =
      let r = bind_from q (q.bind db stmt idx param).0 stmt (idx + 1) rest in
      if-split
        (λ (r : Ran q.Db (Unit {0})).
          OnValue (λ (u : Unit {0}). Bound stmt idx (param ∷ rest) db r.db) r.result)
        (q.bind db stmt idx param).1 r _
        (λ b.
          OnValue-map r.result (λ u h. one_bound b h)
            (bind_from-Bound (q.bind db stmt idx param).0 stmt (idx + 1) rest))
        (λ b. tt)

  -- A statement was bound and stepped once, and is reset.
  abbrev pub Run : q.Stmt → List SqlValue → q.Db → q.Db → Type 0
  Run stmt params db after =
      (ready : q.Db) × (Bound stmt 1 params db ready
        × (((q.step ready stmt).1 ≢ step_failed) × (after ≡ q.reset (q.step ready stmt).0 stmt)))

  by_executed :
      (params : List SqlValue) (stmt : q.Stmt) (db ready : q.Db) (code : StepCode)
      → (q.step ready stmt).1 ≡ code
      → Bound stmt 1 params db ready
      → let r = executed q (q.step ready stmt).0 code in
        OnValue (λ (u : Unit {0}). Run stmt params db (q.reset r.db stmt)) r.result
  by_executed params stmt db ready done e b = (ready, (b, (λ p. cc, refl)))
  by_executed params stmt db ready row e b = (ready, (b, (λ p. cc, refl)))
  by_executed params stmt db ready step_failed e b = tt

  pub execute_impl-Run :
      (params : List SqlValue) (stmt : q.Stmt) (db : q.Db)
      → let r = execute_impl q db stmt params true in
        OnValue (λ (u : Unit {0}). Run stmt params db r.db) r.result
  unfolding execute_impl
  execute_impl-Run params stmt db =
      then_do_lem
        (λ (r : Ran q.Db (Unit {0})).
          OnValue (λ (u : Unit {0}). Run stmt params db (q.reset r.db stmt)) r.result)
        (bind_all q db stmt params)
        (λ db₁ u. executed q ((q.step db₁ stmt).0) ((q.step db₁ stmt).1)) (λ e g. tt)
        (λ u g.
          let ready = (bind_all q db stmt params).db in
          by_executed params stmt db ready (q.step ready stmt).1 refl (
            subst (OnValue (λ (u : Unit {0}). Bound stmt 1 params db ready)) g
              (bind_from-Bound db stmt 1 params)))

  pub by_step :
      (P : Ran q.Db (List (List SqlValue)) → Type 0) (code : StepCode)
      (x y z : Ran q.Db (List (List SqlValue)))
      → (code ≡ done → P x)
      → P y
      → (code ≡ row → P z)
      → P (elim code [ done ↦ x | step_failed ↦ y | row ↦ z ])
  by_step P done x y z f g h = f refl
  by_step P step_failed x y z f g h = g
  by_step P row x y z f g h = h refl

  -- The rows are those before and those that are fetched.
  abbrev pub Behind :
      q.Stmt → List (List SqlValue) → q.Db → Ran q.Db (List (List SqlValue)) → Type 0
  Behind stmt rows db r =
      OnValue
        (λ (all : List (List SqlValue)).
          (rs : List (List SqlValue)) × ((all ≡ rows ++ rs) × Fetched stmt rs db r.db))
        r.result

  pub rows_loop-Behind :
      (n : ℕ) (db : q.Db) (stmt : q.Stmt) (max_rows : ℕ) (max_bytes : Option ℕ)
      (rows : List (List SqlValue)) (bytes : ℕ)
      → Behind stmt rows db (rows_loop q n db stmt max_rows max_bytes rows bytes)
  unfolding rows_loop
  rows_loop-Behind zero db stmt max_rows max_bytes rows bytes = tt
  rows_loop-Behind (suc n) db stmt max_rows max_bytes rows bytes =
      let next = q.step db stmt in
      let cells = map column_value (q.row_columns (next.0) stmt) in
      let bytes₁ = add_cells bytes cells in
      let more = rows_loop q n (next.0) stmt max_rows max_bytes (rows ++ cells ∷ []) bytes₁ in
      let P = Behind stmt rows db in
      by_step P (next.1) (record { db = next.0; result = value rows }) _ _
        (λ e. ([], (sym (append-nil rows), no_more e))) tt
        (λ e. if-keeps P (leb max_rows (length rows)) _ _ tt (
          if-keeps P (over max_bytes bytes₁) _ more tt (
            OnValue-map more.result
              (λ all (rs, (g, f)).
                (cells ∷ rs, (g ∙ append_assoc rows (cells ∷ []) rs, one_more e f)))
              (rows_loop-Behind n (next.0) stmt max_rows max_bytes (rows ++ cells ∷ []) bytes₁))))
