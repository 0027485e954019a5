-- ===== src/Store/Transaction.antt =====
-- `Database::with_transaction` of storage/database.hpp and `Store` of storage/store.cpp.
use vacps.Prelude.{ℕ, ℤ, List, [], ◌∷◌, ◌++◌, Bool, true, ◌||◌, Option, none, some, if◌then◌else◌}
use vacps.Process.State.{Bytes}
use vacps.CommandLine.Names.{same_bytes}
use vacps.Store.{
  SqlValue, QueryResult, RunResult, Kind, exactly, at_least, at_most, ExpectedChanges, StepType,
  run_step, query_step, TransactionStep, TransactionResult, run_result, query_result, StoreError,
  store_closed, unexpected_changes, Result, unexpected, value, Sqlite, Ran, then_do, less,
}
use vacps.Store.Statement.{prepare, execute_impl, query_impl, execute, query, exec}

abbrev pub begin_immediate : Bytes
begin_immediate =
    b'B' ∷ b'E' ∷ b'G' ∷ b'I' ∷ b'N' ∷ b' ' ∷ b'I' ∷ b'M' ∷ b'M' ∷ b'E' ∷ b'D' ∷ b'I' ∷ b'A' ∷ b'T'
    ∷ b'E' ∷ b';' ∷ []

abbrev pub commit : Bytes
commit = b'C' ∷ b'O' ∷ b'M' ∷ b'M' ∷ b'I' ∷ b'T' ∷ b';' ∷ []

abbrev pub rollback : Bytes
rollback = b'R' ∷ b'O' ∷ b'L' ∷ b'L' ∷ b'B' ∷ b'A' ∷ b'C' ∷ b'K' ∷ b';' ∷ []

-- Whether the number of changes is not the expected one.
unfoldable pub violates : Kind → ℤ → ℤ → Bool
violates exactly n changes = less changes n || less n changes
violates at_least n changes = less changes n
violates at_most n changes = less n changes

-- `Store::check_expected_changes`; a step need not have an expectation.
abbrev pub check_expected_changes : Option ExpectedChanges → RunResult → Result RunResult
check_expected_changes none r = value r
check_expected_changes (some exp) r =
    if violates exp.kind exp.n r.changes
    then unexpected (unexpected_changes exp r.changes)
    else value r

abbrev pub as_run : Result RunResult → Result TransactionResult
as_run (unexpected e) = unexpected e
as_run (value r) = value (run_result r)

module _ (q : Sqlite) where
  abbrev pub Cache : Type 0
  Cache = List (Bytes × q.Stmt)

  -- What a step leaves: the connection, and the statements that were prepared.
  abbrev pub Work : Type 0
  Work = q.Db × Cache

  unfoldable pub find : Cache → Bytes → Option q.Stmt
  find [] sql = none
  find ((s, stmt) ∷ rest) sql = if same_bytes s sql then some stmt else find rest sql

  abbrev pub in_cache {ℓ} : {A : Type ℓ} → Cache → Ran q.Db A → Ran Work A
  in_cache cache r = record { db = (r.db, cache); result = r.result }

  abbrev pub emplace : Cache → Bytes → Ran q.Db q.Stmt → Ran Work q.Stmt
  emplace cache sql r = elim r.result [
    | unexpected e ↦ record { db = (r.db, cache); result = unexpected e }
    | value stmt ↦ record { db = (r.db, cache ++ (sql, stmt) ∷ []); result = value stmt }
  ]

  abbrev pub statement_for : Work → Bytes → Ran Work q.Stmt
  statement_for (db, cache) sql = elim (find cache sql) [
    | some stmt ↦ record { db = (db, cache); result = value stmt }
    | none ↦ emplace cache sql (prepare q db sql)
  ]

  abbrev pub as_query : Ran q.Db QueryResult → Ran q.Db TransactionResult
  as_query r = then_do r (λ db found. record { db = db; result = value (query_result found) })

  abbrev pub as_checked : Option ExpectedChanges → Ran q.Db (Unit {0}) → Ran q.Db TransactionResult
  as_checked expected r = then_do r (λ db u. record {
    db = db;
    result = as_run (
        check_expected_changes expected
          (record { changes = q.changes db; last_insert_rowid = q.last_insert_rowid db }));
  })

  abbrev pub run_statement : StepType → TransactionStep → q.Db → q.Stmt → Ran q.Db TransactionResult
  run_statement query_step step db stmt =
      as_query (query_impl q db stmt step.params step.max_rows step.max_bytes true)
  run_statement run_step step db stmt =
      as_checked step.expected_changes (execute_impl q db stmt step.params true)

  abbrev pub run_one : Work → TransactionStep → Ran Work TransactionResult
  run_one work step =
      then_do (statement_for work step.sql)
        (λ after stmt. in_cache (after.1) (run_statement step.type step (after.0) stmt))

  -- The loop over the steps, with the results so far.
  unfoldable pub steps_loop :
      Work → List TransactionStep → List TransactionResult → Ran Work (List TransactionResult)
  steps_loop work [] out = record { db = work; result = value out }
  steps_loop work (step ∷ rest) out =
      then_do (run_one work step) (λ work₁ r. steps_loop work₁ rest (out ++ r ∷ []))

  -- The statements end with the transaction's work.
  unfoldable pub finalize_all : q.Db → Cache → q.Db
  finalize_all db [] = db
  finalize_all db ((s, stmt) ∷ rest) = finalize_all (q.finalize db stmt) rest

  abbrev pub rolled_back {ℓ} : {A : Type ℓ} → q.Db → StoreError → Ran q.Db A
  rolled_back db e = record { db = (exec q db rollback).db; result = unexpected e }

  abbrev pub committed {ℓ} : {A : Type ℓ} → A → Ran q.Db (Unit {0}) → Ran q.Db A
  committed a r = elim r.result [
    | unexpected e ↦ rolled_back r.db e
    | value u ↦ record { db = r.db; result = value a }
  ]

  abbrev pub ended {ℓ} : {A : Type ℓ} → Ran q.Db A → Ran q.Db A
  ended r = elim r.result [
    | unexpected e ↦ rolled_back r.db e
    | value a ↦ committed a (exec q r.db commit)
  ]

  abbrev pub with_transaction {ℓ} : {A : Type ℓ} → (q.Db → Ran q.Db A) → q.Db → Ran q.Db A
  with_transaction work db = then_do (exec q db begin_immediate) (λ db₁ u. ended (work db₁))

  abbrev pub work_done {ℓ} : {A : Type ℓ} → Ran Work A → Ran q.Db A
  work_done r = record { db = finalize_all (r.db.0) (r.db.1); result = r.result }

  unfoldable pub run_steps : List TransactionStep → q.Db → Ran q.Db (List TransactionResult)
  run_steps steps db = work_done (steps_loop (db, []) steps [])

  -- A store has its connection until it is closed.
  pub record Store : Type 0 where
    pub db : Option q.Db
    pub closed : Bool

  abbrev pub on_open {ℓ} : {A : Type ℓ} → (q.Db → Ran q.Db A) → Store → Store × Result A
  on_open f s = elim s.db [
    | none ↦ (s, unexpected store_closed)
    | some db ↦ (record s { db = some ((f db).db) }, (f db).result)
  ]

  unfoldable pub transaction :
      List TransactionStep → Store → Store × Result (List TransactionResult)
  transaction steps s = on_open (with_transaction (run_steps steps)) s

  unfoldable pub store_exec : Bytes → Store → Store × Result (Unit {0})
  store_exec sql s = on_open (λ db. exec q db sql) s

  unfoldable pub store_query :
      Bytes → List SqlValue → ℕ → Option ℕ → Store → Store × Result QueryResult
  store_query sql params max_rows max_bytes s =
      on_open (λ db. query q db sql params max_rows max_bytes) s

  abbrev pub executed_run : Ran q.Db (Unit {0}) → Ran q.Db RunResult
  executed_run r = then_do r (λ db u. record {
    db = db;
    result = value (record { changes = q.changes db; last_insert_rowid = q.last_insert_rowid db });
  })

  unfoldable pub store_run : Bytes → List SqlValue → Store → Store × Result RunResult
  store_run sql params s = on_open (λ db. executed_run (execute q db sql params)) s

  unfoldable pub close : Store → Store
  close s = record { db = none; closed = true }
