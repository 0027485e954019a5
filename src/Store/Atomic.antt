-- ===== src/Store/Atomic.antt =====
-- A transaction is all or nothing, `Store::transaction` over `Database::with_transaction`.
use vacps.Prelude.{◌≡◌, refl, sym, ap, subst, ◌∙◌, List, [], ◌++◌, Option, none, some, Every}
use vacps.Process.State.{Bytes}
use vacps.Store.{
  TransactionStep, TransactionResult, StoreError, exec_failed, Result, unexpected, value, Sqlite,
  Ran, then_do,
}
use vacps.Store.Statement.{exec, exec_result}
use vacps.Store.Transaction.{
  Work, begin_immediate, commit, rollback, committed, on_open, ended, with_transaction, steps_loop,
  finalize_all, run_steps, Store, transaction,
}
use vacps.Store.Performed.{OnValue, Performs}
use vacps.Store.Performs.{steps_loop-Performs}
use vacps.Store.Checked.{Answers, steps_loop-Answers}
use vacps.Store.Open.{IsTransactional, Stands}
use vacps.Store.Standing.{run_steps-Stands}

-- What a transaction on a store's connection leaves and gives: an error, and the contents that were
-- there before it, or the results of the steps, performed one after the other in the transaction
-- that was begun, an answer for each, and the commit of that work.
pub data IsAtomic (q : Sqlite) (o : IsTransactional q) (steps : List TransactionStep)
    (before : q.Db) : Option q.Db → Result (List TransactionResult) → Type 0 where
  cancelled :
      (after : q.Db) (e : StoreError)
      → o.contents after ≡ o.contents before
      → IsAtomic q o steps before (some after) (unexpected e)
  made :
      (work : Work q) (db : q.Db) (results : List TransactionResult)
      → (q.exec before begin_immediate).1 ≡ none
      → Performs q steps results ((q.exec before begin_immediate).0, []) work
      → Answers steps results
      → db ≡ finalize_all q (work.0) (work.1)
      → o.Open db (o.contents before)
      → (q.exec db commit).1 ≡ none
      → IsAtomic q o steps before (some (q.exec db commit).0) (value results)

module _ (q : Sqlite) (o : IsTransactional q) where
  exec_result-db : (db : q.Db) (m : Option Bytes) → (exec_result q db m).db ≡ db
  exec_result-db db none = refl
  exec_result-db db (some m) = refl

  -- A rollback, whether it is reported to fail or not.
  back : (db : q.Db) (c : o.Contents) → o.Ended db c → o.contents (exec q db rollback).db ≡ c
  back db c h =
      ap o.contents (exec_result-db (q.exec db rollback).0 (q.exec db rollback).1)
      ∙ o.rolls_back db c h

  -- The work of all steps, with an answer to each.
  abbrev Done : List TransactionStep → q.Db → q.Db → List TransactionResult → Type 0
  Done steps begun db results =
      (work : Work q) × (Performs q steps results (begun, []) work
        × (Answers steps results × (db ≡ finalize_all q (work.0) (work.1))))

  run_steps-Done :
      (steps : List TransactionStep) (begun : q.Db)
      → OnValue (Done steps begun (run_steps q steps begun).db) (run_steps q steps begun).result
  unfolding run_steps
  run_steps-Done steps begun =
      let r = steps_loop q (begun, []) steps [] in
      by_result r.db r.result (steps_loop-Performs q steps (begun, []) [])
        (steps_loop-Answers q steps (begun, []) [])
    where
      by_result :
          (last : Work q) (x : Result (List TransactionResult))
          → OnValue
              (λ (all : List TransactionResult).
                (rs : List TransactionResult) × ((all ≡ [] ++ rs)
                  × Performs q steps rs (begun, []) last))
              x
          → OnValue
              (λ (all : List TransactionResult).
                (rs : List TransactionResult) × ((all ≡ [] ++ rs) × Answers steps rs))
              x
          → OnValue (Done steps begun (finalize_all q (last.0) (last.1))) x
      by_result last (unexpected e) h k = tt
      by_result last (value all) (rs, (e, h)) (ss, (f, k)) = (
        last,
        (
          subst (λ (x : List TransactionResult). Performs q steps x (begun, []) last) (sym e) h,
          (subst (Answers steps) (sym f) k, refl),
        ),
      )

  module _ (steps : List TransactionStep) (before : q.Db) where
    abbrev Atomic : Ran q.Db (List TransactionResult) → Type 0
    Atomic r = IsAtomic q o steps before (some r.db) r.result

    abbrev begun : q.Db
    begun = (q.exec before begin_immediate).0

    commit-Atomic :
        (db : q.Db) (results : List TransactionResult) (m : Option Bytes)
        → (q.exec before begin_immediate).1 ≡ none
        → o.Open db (o.contents before)
        → Done steps begun db results
        → (q.exec db commit).1 ≡ m
        → Atomic (committed q results (exec_result q ((q.exec db commit).0) m))
    commit-Atomic db results none b h (work, (p, (a, f))) e = made work db results b p a f h e
    commit-Atomic db results (some m) b h d e =
        let h₁ = o.commits_not db (o.contents before) m h e in
        cancelled _ (exec_failed m) (back _ (o.contents before) h₁)

    ended-Atomic :
        (r : Ran q.Db (List TransactionResult))
        → (q.exec before begin_immediate).1 ≡ none
        → Stands q o (o.contents before) r.result r.db
        → OnValue (Done steps begun r.db) r.result
        → Atomic (ended q r)
    ended-Atomic r b = by_result r.result
      where
        by_result :
            (x : Result (List TransactionResult))
            → Stands q o (o.contents before) x r.db
            → OnValue (Done steps begun r.db) x
            → Atomic (ended q (record { db = r.db; result = x }))
        by_result (unexpected e) h d = cancelled _ e (back r.db (o.contents before) h)
        by_result (value results) h d = commit-Atomic r.db results (q.exec r.db commit).1 b h d refl

    begun-Atomic :
        (m : Option Bytes)
        → (q.exec before begin_immediate).1 ≡ m
        → Every (λ (step : TransactionStep). o.Plain step.sql) steps
        → Atomic (
            then_do
              (exec_result q ((q.exec before begin_immediate).0) m)
              (λ db₁ u. ended q (run_steps q steps db₁)))
    begun-Atomic none e p =
        ended-Atomic (run_steps q steps begun) e
          (run_steps-Stands q o (o.contents before) steps begun p (o.begins before e))
          (run_steps-Done steps begun)
    begun-Atomic (some m) e p = cancelled _ (exec_failed m) (o.begins_not before m e)

  -- Where SQLite does what it documents of transactions, its automatic rollback behind some errors
  -- included, a transaction of plain steps on an open store is all or nothing. An error leaves the
  -- contents that were there before it. Else the steps were performed in order behind the BEGIN:
  -- for each, a statement prepared from its text in this transaction had all parameters bound, was
  -- stepped without an error, once or until its rows were fetched, and was reset; its result is
  -- that of this run, with changes as expected or rows within its limits; and with the statements
  -- finalized, this work was committed.
  pub transaction-IsAtomic :
      (s : Store q) (before : q.Db) (steps : List TransactionStep)
      → s.db ≡ some before
      → Every (λ (step : TransactionStep). o.Plain step.sql) steps
      → IsAtomic q o steps before (transaction q steps s).0.db (transaction q steps s).1
  unfolding transaction
  transaction-IsAtomic s before steps e p =
      subst
        (λ (d : Option q.Db).
          IsAtomic q o steps before
            (on_open q (with_transaction q (run_steps q steps)) (record s { db = d })).0.db
            (on_open q (with_transaction q (run_steps q steps)) (record s { db = d })).1)
        (sym e) (begun-Atomic steps before (q.exec before begin_immediate).1 refl p)
