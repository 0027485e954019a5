-- ===== src/Store/Checked.antt =====
-- The results of the steps of a transaction, `Store::transaction` of storage/store.cpp.
use vacps.Prelude.{
  ◌≡◌, refl, sym, subst, ◌∙◌, List, [], ◌∷◌, ◌++◌, append-nil, append_assoc, true, false, Option,
  none, some, if-split,
}
use vacps.Store.{
  RunResult, ExpectedChanges, StepType, run_step, query_step, TransactionStep, TransactionResult,
  run_result, query_result, Result, unexpected, value, Sqlite, then_do_lem,
}
use vacps.Store.Statement.{execute_impl, query_impl}
use vacps.Store.Transaction.{
  violates, Work, statement_for, as_run, check_expected_changes, run_statement, run_one, steps_loop,
  in_cache,
}
use vacps.Store.Performed.{OnValue}
use vacps.Store.Queries.{IsBounded, query_impl-IsBounded}

-- A number of changes is as expected.
abbrev pub AsExpected : Option ExpectedChanges → RunResult → Type 0
AsExpected none r = Unit {0}
AsExpected (some exp) r = violates exp.kind exp.n r.changes ≡ false

-- The result of a step is of its type: changes as expected, or rows within the step's limits.
abbrev pub IsAnswer : StepType → TransactionStep → TransactionResult → Type 0
IsAnswer run_step step (run_result r) = AsExpected step.expected_changes r
IsAnswer run_step step (query_result r) = ⊥
IsAnswer query_step step (run_result r) = ⊥
IsAnswer query_step step (query_result r) = IsBounded step.max_rows step.max_bytes (value r)

-- One result for each step, in order.
pub data Answers : List TransactionStep → List TransactionResult → Type 0 where
  no_answers : Answers [] []
  answer :
      {step : TransactionStep} {r : TransactionResult} {steps : List TransactionStep}
      {rs : List TransactionResult}
      → IsAnswer step.type step r
      → Answers steps rs
      → Answers (step ∷ steps) (r ∷ rs)

check_lem :
    (expected : Option ExpectedChanges) (step : TransactionStep) (r : RunResult)
    → step.expected_changes ≡ expected
    → OnValue (IsAnswer run_step step) (as_run (check_expected_changes expected r))
check_lem none step r e = subst (λ x. AsExpected x r) (sym e) tt
check_lem (some exp) step r e =
    if-split (λ (x : Result RunResult). OnValue (IsAnswer run_step step) (as_run x))
      (violates exp.kind exp.n r.changes) _ _ (λ h. tt) (λ h. subst (λ x. AsExpected x r) (sym e) h)

module _ (q : Sqlite) where
  run_statement-IsAnswer :
      (t : StepType) (step : TransactionStep) (db : q.Db) (stmt : q.Stmt)
      → OnValue (IsAnswer t step) (run_statement q t step db stmt).result
  run_statement-IsAnswer query_step step db stmt =
      then_do_lem (λ r. OnValue (IsAnswer query_step step) r.result)
        (query_impl q db stmt step.params step.max_rows step.max_bytes true)
        (λ db₁ found. record { db = db₁; result = value (query_result found) }) (λ e h. tt)
        (λ found h.
          subst (IsBounded step.max_rows step.max_bytes) h
            (query_impl-IsBounded q db stmt step.params step.max_rows step.max_bytes true))
  run_statement-IsAnswer run_step step db stmt =
      then_do_lem (λ r. OnValue (IsAnswer run_step step) r.result)
        (execute_impl q db stmt step.params true)
        (λ db₁ u. record {
          db = db₁;
          result = as_run (
              check_expected_changes step.expected_changes
                (record { changes = q.changes db₁; last_insert_rowid = q.last_insert_rowid db₁ }));
        })
        (λ e h. tt) (λ u h. check_lem step.expected_changes step _ refl)

  run_one-IsAnswer :
      (work : Work q) (step : TransactionStep)
      → OnValue (IsAnswer step.type step) (run_one q work step).result
  run_one-IsAnswer work step =
      then_do_lem (λ r. OnValue (IsAnswer step.type step) r.result) (statement_for q work step.sql)
        (λ after stmt. in_cache q (after.1) (run_statement q step.type step (after.0) stmt))
        (λ e h. tt) (λ stmt h. run_statement-IsAnswer step.type step _ stmt)

  -- The results are those so far and an answer for each step.
  pub steps_loop-Answers :
      (steps : List TransactionStep) (work : Work q) (out : List TransactionResult)
      → OnValue
          (λ (all : List TransactionResult).
            (rs : List TransactionResult) × ((all ≡ out ++ rs) × Answers steps rs))
          (steps_loop q work steps out).result
  unfolding steps_loop
  steps_loop-Answers [] work out = ([], (sym (append-nil out), no_answers))
  steps_loop-Answers (step ∷ rest) work out =
      then_do_lem
        (λ r.
          OnValue
            (λ (all : List TransactionResult).
              (rs : List TransactionResult) × ((all ≡ out ++ rs) × Answers (step ∷ rest) rs))
            r.result)
        (run_one q work step) (λ work₁ r. steps_loop q work₁ rest (out ++ r ∷ [])) (λ e h. tt)
        (λ r h.
          one_more r (subst (OnValue (IsAnswer step.type step)) h (run_one-IsAnswer work step))
            (steps_loop q (run_one q work step).db rest (out ++ r ∷ [])).result
            (steps_loop-Answers rest (run_one q work step).db (out ++ r ∷ [])))
    where
      one_more :
          (r : TransactionResult)
          → IsAnswer step.type step r
          → (x : Result (List TransactionResult))
          → OnValue
              (λ (all : List TransactionResult).
                (rs : List TransactionResult) × ((all ≡ (out ++ r ∷ []) ++ rs) × Answers rest rs))
              x
          → OnValue
              (λ (all : List TransactionResult).
                (rs : List TransactionResult) × ((all ≡ out ++ rs) × Answers (step ∷ rest) rs))
              x
      one_more r a (unexpected e) h = tt
      one_more r a (value all) (rs, (e, later)) =
          (r ∷ rs, (e ∙ append_assoc out (r ∷ []) rs, answer a later))
