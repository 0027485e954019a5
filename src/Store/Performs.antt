-- ===== src/Store/Performs.antt =====
-- The loop over the steps of a transaction performs each with a statement of its text.
use vacps.Prelude.{
  ℕ, suc, ◌≡◌, refl, sym, ap, subst, ◌∙◌, List, [], ◌∷◌, ◌++◌, append-nil, append_assoc, Bool, true,
  ◌&&◌, Option, none, some, ◌==◌, ==_iff, arith, get_elem?, if-split, if-keeps,
}
use vacps.Process.State.{Bytes}
use vacps.CommandLine.Names.{same_bytes}
use vacps.Store.{
  SqlValue, QueryResult, RunResult, ExpectedChanges, StepType, run_step, query_step,
  TransactionStep, TransactionResult, run_result, query_result, Result, value, Prepared, prepared,
  nothing_prepared, not_prepared, Sqlite, Ran, then_do_lem,
}
use vacps.Store.Statement.{
  add_names, over, bind_all, execute_impl, rows_loop, all_rows, query_impl, prepare, prepared_as,
}
use vacps.Store.Transaction.{
  as_run, check_expected_changes, violates, Cache, Work, find, emplace, statement_for,
  run_statement, in_cache, run_one, steps_loop,
}
use vacps.Store.Performed.{
  OnValue, OnValue-map, Bound, Fetched, run_of, Performed, was_run, was_queried, Obtained, cached,
  newly, Performs, nothing_left, perform, Run, execute_impl-Run, rows_loop-Behind, bind_from-Bound,
}

same_bytes-eq : (s t : Bytes) → same_bytes s t ≡ true → s ≡ t
unfolding same_bytes
same_bytes-eq [] [] h = refl
same_bytes-eq [] (d ∷ ds) h = absurd (cc)
same_bytes-eq (c ∷ cs) [] h = absurd (cc)
same_bytes-eq (c ∷ cs) (d ∷ ds) h =
    let (first, rest) = both (c == d) (same_bytes cs ds) h in
    (λ i. (==_iff c d).0 first i ∷ same_bytes-eq cs ds rest i)
  where
    both : (a b : Bool) → (a && b) ≡ true → (a ≡ true) × (b ≡ true)
    both a b h = (ground arith, ground arith)

check-OnValue :
    (P : TransactionResult → Type 0) (expected : Option ExpectedChanges) (r : RunResult)
    → P (run_result r)
    → OnValue P (as_run (check_expected_changes expected r))
check-OnValue P none r h = h
check-OnValue P (some exp) r h =
    if-keeps (λ (x : Result RunResult). OnValue P (as_run x)) (violates exp.kind exp.n r.changes) _
      _ tt h

module _ (q : Sqlite) where
  -- A statement was bound, all its rows were fetched, and it is reset.
  abbrev Queried : q.Stmt → List SqlValue → q.Db → QueryResult → q.Db → Type 0
  Queried stmt params db found after =
      (ready last : q.Db) × ((rows : List (List SqlValue)) × (Bound q stmt 1 params db ready
          × (Fetched q stmt rows ready last
              × ((found ≡ record { columns = q.column_names ready stmt; rows = rows })
                  × (after ≡ q.reset last stmt)))))

  all_rows-Fetched :
      (params : List SqlValue) (stmt : q.Stmt) (db ready : q.Db) (max_rows : ℕ)
      (max_bytes : Option ℕ) (bytes : ℕ)
      → Bound q stmt 1 params db ready
      → let r = all_rows q ready stmt max_rows max_bytes (q.column_names ready stmt) bytes in
        OnValue (λ (found : QueryResult). Queried stmt params db found (q.reset r.db stmt)) r.result
  all_rows-Fetched params stmt db ready max_rows max_bytes bytes b =
      let P : Ran q.Db QueryResult → Type 0 = λ r.
        OnValue (λ (found : QueryResult). Queried stmt params db found (q.reset r.db stmt))
          r.result in
      let columns = q.column_names ready stmt in
      let loop = rows_loop q (suc max_rows) ready stmt max_rows max_bytes [] bytes in
      if-keeps P (over max_bytes bytes) _ _ tt (
        then_do_lem P loop
          (λ db₁ rows. record {
            db = db₁;
            result = value (record { columns = columns; rows = rows });
          })
          (λ e g. tt)
          (λ all g.
            let (rows, (e, f)) =
              subst
                (OnValue (λ (all : List (List SqlValue)).
                  (rs : List (List SqlValue)) × ((all ≡ [] ++ rs)
                    × Fetched q stmt rs ready loop.db)))
                g (rows_loop-Behind q (suc max_rows) ready stmt max_rows max_bytes [] bytes) in
            (
              ready,
              loop.db,
              (
                rows,
                (
                  b,
                  (
                    f,
                    (
                      ap (λ (x : List (List SqlValue)). record { columns = columns; rows = x }) e,
                      refl,
                    ),
                  ),
                ),
              ),
            )))

  query_impl-Queried :
      (params : List SqlValue) (stmt : q.Stmt) (db : q.Db) (max_rows : ℕ) (max_bytes : Option ℕ)
      → let r = query_impl q db stmt params max_rows max_bytes true in
        OnValue (λ (found : QueryResult). Queried stmt params db found r.db) r.result
  unfolding query_impl
  query_impl-Queried params stmt db max_rows max_bytes =
      then_do_lem
        (λ (r : Ran q.Db QueryResult).
          OnValue (λ (found : QueryResult). Queried stmt params db found (q.reset r.db stmt))
            r.result)
        (bind_all q db stmt params)
        (λ db₁ u.
          all_rows q db₁ stmt max_rows max_bytes (q.column_names db₁ stmt)
            (add_names 0 (q.column_names db₁ stmt)))
        (λ e g. tt)
        (λ u g.
          let ready = (bind_all q db stmt params).db in
          all_rows-Fetched params stmt db ready max_rows max_bytes _ (
            subst (OnValue (λ (u : Unit {0}). Bound q stmt 1 params db ready)) g
              (bind_from-Bound q db stmt 1 params)))

  run_statement-Performed :
      (t : StepType) (step : TransactionStep) (stmt : q.Stmt) (db : q.Db)
      → let r = run_statement q t step db stmt in
        OnValue (λ (x : TransactionResult). Performed q step stmt t x db r.db) r.result
  run_statement-Performed query_step step stmt db =
      let r = query_impl q db stmt step.params step.max_rows step.max_bytes true in
      then_do_lem
        (λ (r : Ran q.Db TransactionResult).
          OnValue (λ (x : TransactionResult). Performed q step stmt query_step x db r.db) r.result)
        r (λ db₁ found. record { db = db₁; result = value (query_result found) }) (λ e g. tt)
        (λ found g.
          let (ready, last, (rows, (b, (f, (e, a))))) =
            subst (OnValue (λ (found : QueryResult). Queried stmt step.params db found r.db)) g
              (query_impl-Queried step.params stmt db step.max_rows step.max_bytes) in
          subst (λ (x : QueryResult). Performed q step stmt query_step (query_result x) db r.db)
            (sym e)
            (subst
              (Performed q step stmt query_step
                (query_result (record { columns = q.column_names ready stmt; rows = rows })) db)
              (sym a) (was_queried b f)))
  run_statement-Performed run_step step stmt db =
      let r = execute_impl q db stmt step.params true in
      then_do_lem
        (λ (r : Ran q.Db TransactionResult).
          OnValue (λ (x : TransactionResult). Performed q step stmt run_step x db r.db) r.result)
        r
        (λ db₁ u. record {
          db = db₁;
          result = as_run (check_expected_changes step.expected_changes (run_of q db₁));
        })
        (λ e g. tt)
        (λ u g.
          let (ready, (b, (code, a))) =
            subst (OnValue (λ (u : Unit {0}). Run q stmt step.params db r.db)) g
              (execute_impl-Run q step.params stmt db) in
          check-OnValue (λ (x : TransactionResult). Performed q step stmt run_step x db r.db)
            step.expected_changes (run_of q r.db)
            (subst
              (λ (after : q.Db).
                Performed q step stmt run_step (run_result (run_of q after)) db after)
              (sym a) (was_run b code)))

  abbrev IsFound : Cache q → Bytes → Option q.Stmt → Type 0
  IsFound cache sql none = Unit {0}
  IsFound cache sql (some stmt) = (i : ℕ) × (get_elem? cache i ≡ some (sql, stmt))

  later-IsFound :
      (entry : Bytes × q.Stmt) (cache : Cache q) (sql : Bytes) (o : Option q.Stmt)
      → IsFound cache sql o
      → IsFound (entry ∷ cache) sql o
  later-IsFound entry cache sql none h = tt
  later-IsFound entry cache sql (some stmt) (i, e) = (suc i, e)

  find-IsFound : (cache : Cache q) (sql : Bytes) → IsFound cache sql (find q cache sql)
  unfolding find
  find-IsFound [] sql = tt
  find-IsFound ((s, stmt) ∷ rest) sql =
      if-split (IsFound ((s, stmt) ∷ rest) sql) (same_bytes s sql) _ _
        (λ h. (0, ap (λ (t : Bytes). some (t, stmt)) (same_bytes-eq s sql h)))
        (λ h. later-IsFound (s, stmt) rest sql (find q rest sql) (find-IsFound rest sql))

  statement_for-Obtained :
      (db : q.Db) (cache : Cache q) (sql : Bytes)
      → let r = statement_for q (db, cache) sql in
        OnValue (λ (stmt : q.Stmt). Obtained q sql stmt (db, cache) r.db) r.result
  statement_for-Obtained db cache sql = by_found (find q cache sql) (find-IsFound cache sql)
    where
      by_prepared :
          (x : Prepared q.Stmt)
          → (q.prepare db sql).1 ≡ x
          → let r = emplace q cache sql (prepared_as q ((q.prepare db sql).0) x) in
            OnValue (λ (stmt : q.Stmt). Obtained q sql stmt (db, cache) r.db) r.result
      by_prepared (prepared stmt) e = newly e
      by_prepared nothing_prepared e = tt
      by_prepared not_prepared e = tt

      by_found :
          (o : Option q.Stmt)
          → IsFound cache sql o
          → let r : Ran (Work q) q.Stmt = elim o [
            | some stmt ↦ record { db = (db, cache); result = value stmt }
            | none ↦ emplace q cache sql (prepare q db sql)
          ] in
            OnValue (λ (stmt : q.Stmt). Obtained q sql stmt (db, cache) r.db) r.result
      by_found none h = by_prepared (q.prepare db sql).1 refl
      by_found (some stmt) (i, e) = cached i e

  -- One step with its statement.
  abbrev OneStep : Work q → TransactionStep → TransactionResult → Work q → Type 0
  OneStep work step x after =
      (stmt : q.Stmt) × ((ready : Work q) × (Obtained q step.sql stmt work ready
          × (Performed q step stmt step.type x (ready.0) (after.0) × (after.1 ≡ ready.1))))

  run_one-OneStep :
      (work : Work q) (step : TransactionStep)
      → let r = run_one q work step in
        OnValue (λ (x : TransactionResult). OneStep work step x r.db) r.result
  run_one-OneStep work step =
      let r = statement_for q work step.sql in
      then_do_lem
        (λ (r : Ran (Work q) TransactionResult).
          OnValue (λ (x : TransactionResult). OneStep work step x r.db) r.result)
        r (λ after stmt. in_cache q (after.1) (run_statement q step.type step (after.0) stmt))
        (λ e g. tt)
        (λ stmt g.
          let o =
            subst (OnValue (λ (stmt : q.Stmt). Obtained q step.sql stmt work r.db)) g
              (statement_for-Obtained (work.0) (work.1) step.sql) in
          OnValue-map (run_statement q step.type step (r.db.0) stmt).result
            (λ x p. (stmt, (r.db, (o, (p, refl)))))
            (run_statement-Performed step.type step stmt (r.db.0)))

  -- The results are those so far and those of the steps that are performed.
  pub steps_loop-Performs :
      (steps : List TransactionStep) (work : Work q) (out : List TransactionResult)
      → let r = steps_loop q work steps out in
        OnValue
          (λ (all : List TransactionResult).
            (rs : List TransactionResult) × ((all ≡ out ++ rs) × Performs q steps rs work r.db))
          r.result
  unfolding steps_loop
  steps_loop-Performs [] work out = ([], (sym (append-nil out), nothing_left))
  steps_loop-Performs (step ∷ rest) work out =
      let one = run_one q work step in
      then_do_lem
        (λ (r : Ran (Work q) (List TransactionResult)).
          OnValue
            (λ (all : List TransactionResult).
              (rs : List TransactionResult) × ((all ≡ out ++ rs)
                × Performs q (step ∷ rest) rs work r.db))
            r.result)
        one (λ work₁ r. steps_loop q work₁ rest (out ++ r ∷ [])) (λ e g. tt)
        (λ x g.
          let (stmt, (ready, (o, (p, same)))) =
            subst (OnValue (λ (x : TransactionResult). OneStep work step x one.db)) g
              (run_one-OneStep work step) in
          OnValue-map (steps_loop q one.db rest (out ++ x ∷ [])).result
            (λ all (rs, (e, later)). (
              x ∷ rs,
              (
                e ∙ append_assoc out (x ∷ []) rs,
                perform o p (
                    subst
                      (λ (c : Cache q).
                        Performs q rest rs (one.db.0, c)
                          (steps_loop q one.db rest (out ++ x ∷ [])).db)
                      same later),
              ),
            ))
            (steps_loop-Performs rest one.db (out ++ x ∷ [])))
