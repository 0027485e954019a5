-- ===== src/Store/Examples.antt =====
-- Tests of the model of the store, and the theorems at concrete inputs.
use vacps.Prelude.{ℕ, ◌≡◌, refl, pos, [], ◌∷◌, true, false, none, some, none_left, also}
use vacps.CommandLine.Names.{same_bytes}
use vacps.Store.{
  exactly, run_step, query_step, TransactionStep, run_result, query_result, store_closed,
  unexpected_changes, exceeded_max_rows, execute_failed, unexpected, value, sql_int,
}
use vacps.Store.Statement.{add_names, add_cells, bind_from, execute_impl, rows_loop, query_impl}
use vacps.Store.Transaction.{
  violates, find, steps_loop, finalize_all, run_steps, Store, transaction, store_query, store_run,
  close,
}
use vacps.Store.Queries.{IsBounded, query_impl-IsBounded}
use vacps.Store.Atomic.{IsAtomic, transaction-IsAtomic}
use vacps.Store.Counter.{CounterDb, counter, counter-IsTransactional, every_plain}

abbrev new_db : CounterDb
new_db = record { saved = 5; current = 5; rows_left = 1; active = false }

abbrev new_store : Store counter
new_store = record { db = some new_db; closed = false }

abbrev insert : ℕ → TransactionStep
insert n = record {
  sql = b'i' ∷ [];
  params = [];
  type = run_step;
  expected_changes = some (record { kind = exactly; n = pos n });
  max_rows = 0;
  max_bytes = none;
}

abbrev select : TransactionStep
select = record {
  sql = b's' ∷ [];
  params = [];
  type = query_step;
  expected_changes = none;
  max_rows = 1;
  max_bytes = some 16;
}

committed_changes : transaction counter (insert 1 ∷ select ∷ []) new_store ≡ (
  record {
    db = some (record { saved = 6; current = 6; rows_left = 1; active = false });
    closed = false;
  },
  value (
      run_result (record { changes = pos 1; last_insert_rowid = pos 6 })
      ∷ query_result (record { columns = (b'n' ∷ []) ∷ []; rows = (sql_int (pos 6) ∷ []) ∷ [] })
      ∷ []),
)
unfolding transaction run_steps steps_loop find same_bytes execute_impl bind_from query_impl
    rows_loop add_names add_cells finalize_all violates
committed_changes = refl

cancelled_changes : transaction counter (insert 1 ∷ insert 2 ∷ []) new_store ≡ (
  record {
    db = some (record { saved = 5; current = 5; rows_left = 1; active = false });
    closed = false;
  },
  unexpected (unexpected_changes (record { kind = exactly; n = pos 2 }) (pos 1)),
)
unfolding transaction run_steps steps_loop find same_bytes execute_impl bind_from finalize_all
    violates
cancelled_changes = refl

abbrev failing : TransactionStep
failing = record {
  sql = b'x' ∷ [];
  params = [];
  type = run_step;
  expected_changes = none;
  max_rows = 0;
  max_bytes = none;
}

-- The database has rolled back by itself.
failed_changes : transaction counter (insert 1 ∷ failing ∷ []) new_store ≡ (
  record {
    db = some (record { saved = 5; current = 5; rows_left = 1; active = false });
    closed = false;
  },
  unexpected execute_failed,
)
unfolding transaction run_steps steps_loop find same_bytes execute_impl bind_from finalize_all
    violates
failed_changes = refl

no_row : (store_query counter (b's' ∷ []) [] 0 none new_store).1 ≡ unexpected (exceeded_max_rows 0)
unfolding store_query query_impl bind_from rows_loop add_names add_cells
no_row = refl

closed_store :
    (store_run counter (b'i' ∷ []) [] (close counter new_store)).1 ≡ unexpected store_closed
unfolding store_run close
closed_store = refl

query_impl-IsBounded_example :
    IsBounded 1 (some 16) (query_impl counter new_db (b's' ∷ []) [] 1 (some 16) true).result
query_impl-IsBounded_example = query_impl-IsBounded counter new_db (b's' ∷ []) [] 1 (some 16) true

transaction-IsAtomic_example :
    IsAtomic counter counter-IsTransactional
      (insert 1 ∷ select ∷ [])
      new_db
      (transaction counter (insert 1 ∷ select ∷ []) new_store).0.db
      (transaction counter (insert 1 ∷ select ∷ []) new_store).1
transaction-IsAtomic_example =
    transaction-IsAtomic counter counter-IsTransactional new_store new_db (insert 1 ∷ select ∷ [])
      refl (also (every_plain (b'i' ∷ [])) (also (every_plain (b's' ∷ [])) none_left))
