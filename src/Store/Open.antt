-- ===== src/Store/Open.antt =====
-- What SQLite documents of transactions, and that the work of one on plain statements stays in it.
use vacps.Prelude.{
  ℕ, zero, suc, ◌+◌, ◌≡◌, ◌≢◌, refl, subst, List, [], ◌∷◌, ◌++◌, map, true, Option, none, some,
  if-keeps, if-split, leb, length,
}
use vacps.Process.State.{Bytes}
use vacps.Store.{
  SqlValue, QueryResult, RunResult, StepType, run_step, query_step, TransactionStep,
  TransactionResult, query_result, Result, unexpected, value, prepared, StepCode, done, row,
  step_failed, Sqlite, Ran, then_do_lem,
}
use vacps.Store.Statement.{
  column_value, add_names, add_cells, over, bind_from, bind_all, execute_impl, executed, rows_loop,
  all_rows, query_impl,
}
use vacps.Store.Performed.{run_of, by_step}
use vacps.Store.Transaction.{
  as_run, check_expected_changes, begin_immediate, commit, rollback, run_statement,
}

-- What SQLite documents of transactions, while no other connection writes. `Open db c` says that a
-- transaction was begun at contents `c` and is open; `Ended db c` that it was begun at `c` and is
-- open, or that SQLite has rolled it back by itself, as it may where a call fails. A text is plain
-- if it is no BEGIN, COMMIT, ROLLBACK or the like.
pub record IsTransactional (q : Sqlite) : Type 1 where
  pub Contents : Type 0
  pub contents : q.Db → Contents
  pub Plain : Bytes → Type 0
  pub PlainStatement : q.Stmt → Type 0
  pub Open : q.Db → Contents → Type 0
  pub Ended : q.Db → Contents → Type 0
  pub open_ended : (db : q.Db) (c : Contents) → Open db c → Ended db c
  pub begins :
      (db : q.Db)
      → (q.exec db begin_immediate).1 ≡ none
      → Open (q.exec db begin_immediate).0 (contents db)
  pub begins_not :
      (db : q.Db) (m : Bytes)
      → (q.exec db begin_immediate).1 ≡ some m
      → contents (q.exec db begin_immediate).0 ≡ contents db
  pub prepares :
      (db : q.Db) (c : Contents) (sql : Bytes) (stmt : q.Stmt)
      → Plain sql
      → Open db c
      → (q.prepare db sql).1 ≡ prepared stmt
      → Open (q.prepare db sql).0 c × PlainStatement stmt
  pub prepares_ended :
      (db : q.Db) (c : Contents) (sql : Bytes) → Open db c → Ended (q.prepare db sql).0 c
  pub binds :
      (db : q.Db) (c : Contents) (stmt : q.Stmt) (idx : ℕ) (param : SqlValue)
      → Open db c
      → (q.bind db stmt idx param).1 ≡ true
      → Open (q.bind db stmt idx param).0 c
  pub binds_ended :
      (db : q.Db) (c : Contents) (stmt : q.Stmt) (idx : ℕ) (param : SqlValue)
      → Open db c
      → Ended (q.bind db stmt idx param).0 c
  pub steps :
      (db : q.Db) (c : Contents) (stmt : q.Stmt)
      → PlainStatement stmt
      → Open db c
      → (q.step db stmt).1 ≢ step_failed
      → Open (q.step db stmt).0 c
  pub steps_ended :
      (db : q.Db) (c : Contents) (stmt : q.Stmt)
      → PlainStatement stmt
      → Open db c
      → Ended (q.step db stmt).0 c
  pub resets : (db : q.Db) (c : Contents) (stmt : q.Stmt) → Open db c → Open (q.reset db stmt) c
  pub resets_ended :
      (db : q.Db) (c : Contents) (stmt : q.Stmt) → Ended db c → Ended (q.reset db stmt) c
  pub finalizes :
      (db : q.Db) (c : Contents) (stmt : q.Stmt) → Open db c → Open (q.finalize db stmt) c
  pub finalizes_ended :
      (db : q.Db) (c : Contents) (stmt : q.Stmt) → Ended db c → Ended (q.finalize db stmt) c
  pub rolls_back : (db : q.Db) (c : Contents) → Ended db c → contents (q.exec db rollback).0 ≡ c
  pub commits_not :
      (db : q.Db) (c : Contents) (m : Bytes)
      → Open db c
      → (q.exec db commit).1 ≡ some m
      → Ended (q.exec db commit).0 c

module _ (q : Sqlite) (o : IsTransactional q) (c : o.Contents) where
  -- The transaction is open, or it has ended with an error.
  abbrev pub Stands {ℓ} : {A : Type ℓ} → Result A → q.Db → Type 0
  Stands (unexpected e) db = o.Ended db c
  Stands (value a) db = o.Open db c

  abbrev IsStanding {ℓ} : {A : Type ℓ} → Ran q.Db A → Type 0
  IsStanding r = Stands r.result r.db

  reset-Stands {ℓ} :
      {A : Type ℓ} (r : Result A) (db : q.Db) (stmt : q.Stmt)
      → Stands r db
      → Stands r (q.reset db stmt)
  reset-Stands (unexpected e) db stmt h = o.resets_ended db c stmt h
  reset-Stands (value a) db stmt h = o.resets db c stmt h

  bind_from-IsStanding :
      (db : q.Db) (stmt : q.Stmt) (idx : ℕ) (params : List SqlValue)
      → o.Open db c
      → IsStanding (bind_from q db stmt idx params)
  unfolding bind_from
  bind_from-IsStanding db stmt idx [] h = h
  bind_from-IsStanding db stmt idx (param ∷ rest) h =
      if-split (λ (r : Ran q.Db (Unit {0})). IsStanding r) (q.bind db stmt idx param).1 _ _
        (λ b.
          bind_from-IsStanding (q.bind db stmt idx param).0 stmt (idx + 1) rest
            (o.binds db c stmt idx param h b))
        (λ b. o.binds_ended db c stmt idx param h)

  -- All parameters were bound.
  bound-Open :
      (db : q.Db) (stmt : q.Stmt) (params : List SqlValue) (x : Result (Unit {0}))
      → (bind_all q db stmt params).result ≡ x
      → o.Open db c
      → Stands x (bind_all q db stmt params).db
  bound-Open db stmt params x g h =
      subst (λ (x : Result (Unit {0})). Stands x (bind_all q db stmt params).db) g
        (bind_from-IsStanding db stmt 1 params h)

  executed-IsStanding :
      (db : q.Db) (stmt : q.Stmt) (code : StepCode)
      → (q.step db stmt).1 ≡ code
      → o.PlainStatement stmt
      → o.Open db c
      → IsStanding (executed q ((q.step db stmt).0) code)
  executed-IsStanding db stmt done e p h = o.steps db c stmt p h (λ f. cc)
  executed-IsStanding db stmt row e p h = o.steps db c stmt p h (λ f. cc)
  executed-IsStanding db stmt step_failed e p h = o.steps_ended db c stmt p h

  execute_impl-IsStanding :
      (db : q.Db) (stmt : q.Stmt) (params : List SqlValue)
      → o.PlainStatement stmt
      → o.Open db c
      → IsStanding (execute_impl q db stmt params true)
  unfolding execute_impl
  execute_impl-IsStanding db stmt params p h = reset-Stands _ _ stmt (
      then_do_lem (λ (r : Ran q.Db (Unit {0})). IsStanding r) (bind_all q db stmt params)
        (λ db₁ u. executed q ((q.step db₁ stmt).0) ((q.step db₁ stmt).1))
        (λ e g. bound-Open db stmt params (unexpected e) g h)
        (λ u g. executed-IsStanding _ stmt _ refl p (bound-Open db stmt params (value u) g h)))

  rows_loop-IsStanding :
      (n : ℕ) (db : q.Db) (stmt : q.Stmt) (max_rows : ℕ) (max_bytes : Option ℕ)
      (rows : List (List SqlValue)) (bytes : ℕ)
      → o.PlainStatement stmt
      → o.Open db c
      → IsStanding (rows_loop q n db stmt max_rows max_bytes rows bytes)
  unfolding rows_loop
  rows_loop-IsStanding zero db stmt max_rows max_bytes rows bytes p h = o.open_ended db c h
  rows_loop-IsStanding (suc n) db stmt max_rows max_bytes rows bytes p h =
      let next = q.step db stmt in
      let cells = map column_value (q.row_columns (next.0) stmt) in
      let bytes₁ = add_cells bytes cells in
      let P : Ran q.Db (List (List SqlValue)) → Type 0 = λ r. IsStanding r in
      by_step q P (next.1) (record { db = next.0; result = value rows }) _ _
        (λ e. o.steps db c stmt p h (λ f. cc)) (o.steps_ended db c stmt p h)
        (λ e.
          let h₁ = o.steps db c stmt p h (λ f. cc) in
          if-keeps P (leb max_rows (length rows)) _ _ (o.open_ended _ c h₁) (
            if-keeps P (over max_bytes bytes₁) _ _ (o.open_ended _ c h₁) (
              rows_loop-IsStanding n (next.0) stmt max_rows max_bytes (rows ++ cells ∷ []) bytes₁ p
                h₁)))

  all_rows-IsStanding :
      (db : q.Db) (stmt : q.Stmt) (max_rows : ℕ) (max_bytes : Option ℕ) (columns : List Bytes)
      (bytes : ℕ)
      → o.PlainStatement stmt
      → o.Open db c
      → IsStanding (all_rows q db stmt max_rows max_bytes columns bytes)
  all_rows-IsStanding db stmt max_rows max_bytes columns bytes p h =
      let loop = rows_loop q (suc max_rows) db stmt max_rows max_bytes [] bytes in
      let h₁ = rows_loop-IsStanding (suc max_rows) db stmt max_rows max_bytes [] bytes p h in
      let P : Ran q.Db QueryResult → Type 0 = λ r. IsStanding r in
      if-keeps P (over max_bytes bytes) _ _ (o.open_ended db c h) (
        then_do_lem P loop
          (λ db₁ rows. record {
            db = db₁;
            result = value (record { columns = columns; rows = rows });
          })
          (λ e g. subst (λ (x : Result (List (List SqlValue))). Stands x loop.db) g h₁)
          (λ rows g. subst (λ (x : Result (List (List SqlValue))). Stands x loop.db) g h₁))

  query_impl-IsStanding :
      (db : q.Db) (stmt : q.Stmt) (params : List SqlValue) (max_rows : ℕ) (max_bytes : Option ℕ)
      → o.PlainStatement stmt
      → o.Open db c
      → IsStanding (query_impl q db stmt params max_rows max_bytes true)
  unfolding query_impl
  query_impl-IsStanding db stmt params max_rows max_bytes p h = reset-Stands _ _ stmt (
      then_do_lem (λ (r : Ran q.Db QueryResult). IsStanding r) (bind_all q db stmt params)
        (λ db₁ u.
          all_rows q db₁ stmt max_rows max_bytes (q.column_names db₁ stmt)
            (add_names 0 (q.column_names db₁ stmt)))
        (λ e g. bound-Open db stmt params (unexpected e) g h)
        (λ u g.
          all_rows-IsStanding _ stmt max_rows max_bytes _ _ p
            (bound-Open db stmt params (value u) g h)))

  as_run-Stands : (x : Result RunResult) (db : q.Db) → o.Open db c → Stands (as_run x) db
  as_run-Stands (unexpected e) db h = o.open_ended db c h
  as_run-Stands (value r) db h = h

  pub run_statement-IsStanding :
      (t : StepType) (step : TransactionStep) (db : q.Db) (stmt : q.Stmt)
      → o.PlainStatement stmt
      → o.Open db c
      → Stands (run_statement q t step db stmt).result (run_statement q t step db stmt).db
  run_statement-IsStanding query_step step db stmt p h =
      let r = query_impl q db stmt step.params step.max_rows step.max_bytes true in
      let h₁ = query_impl-IsStanding db stmt step.params step.max_rows step.max_bytes p h in
      then_do_lem (λ (r : Ran q.Db TransactionResult). IsStanding r) r
        (λ db₁ found. record { db = db₁; result = value (query_result found) })
        (λ e g. subst (λ (x : Result QueryResult). Stands x r.db) g h₁)
        (λ u g. subst (λ (x : Result QueryResult). Stands x r.db) g h₁)
  run_statement-IsStanding run_step step db stmt p h =
      let r = execute_impl q db stmt step.params true in
      let h₁ = execute_impl-IsStanding db stmt step.params p h in
      then_do_lem (λ (r : Ran q.Db TransactionResult). IsStanding r) r
        (λ db₁ u. record {
          db = db₁;
          result = as_run (check_expected_changes step.expected_changes (run_of q db₁));
        })
        (λ e g. subst (λ (x : Result (Unit {0})). Stands x r.db) g h₁)
        (λ u g.
          as_run-Stands (check_expected_changes step.expected_changes (run_of q r.db)) r.db
            (subst (λ (x : Result (Unit {0})). Stands x r.db) g h₁))
