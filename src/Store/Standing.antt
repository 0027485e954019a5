-- ===== src/Store/Standing.antt =====
-- The work of all steps of a transaction stays in it.
use vacps.Prelude.{
  ◌≡◌, refl, subst, List, [], ◌∷◌, ◌++◌, Option, none, some, if-keeps, Every, none_left, also,
}
use vacps.Process.State.{Bytes}
use vacps.CommandLine.Names.{same_bytes}
use vacps.Store.{
  TransactionStep, TransactionResult, Result, unexpected, value, Prepared, prepared,
  nothing_prepared, not_prepared, Sqlite, Ran, then_do_lem,
}
use vacps.Store.Statement.{prepare, prepared_as}
use vacps.Store.Performed.{OnValue}
use vacps.Store.Transaction.{
  Cache, Work, find, emplace, statement_for, run_statement, in_cache, run_one, steps_loop,
  finalize_all, run_steps,
}
use vacps.Store.Open.{IsTransactional, Stands, run_statement-IsStanding}

module _ (q : Sqlite) (o : IsTransactional q) (c : o.Contents) where
  abbrev ArePlain : Cache q → Type 0
  ArePlain cache = Every (λ (entry : Bytes × q.Stmt). o.PlainStatement (entry.1)) cache

  -- The transaction stands, and its statements are plain.
  abbrev IsWork {ℓ} : {A : Type ℓ} → Result A → Work q → Type 0
  IsWork r work = Stands q o c r (work.0) × ArePlain (work.1)

  abbrev Found : Option q.Stmt → Type 0
  Found none = Unit {0}
  Found (some stmt) = o.PlainStatement stmt

  find-Found : (cache : Cache q) (sql : Bytes) → ArePlain cache → Found (find q cache sql)
  unfolding find
  find-Found [] sql none_left = tt
  find-Found ((s, stmt) ∷ rest) sql (also p h) =
      if-keeps Found (same_bytes s sql) _ _ p (find-Found rest sql h)

  append-ArePlain :
      (cache : Cache q) (entry : Bytes × q.Stmt)
      → ArePlain cache
      → o.PlainStatement (entry.1)
      → ArePlain (cache ++ entry ∷ [])
  append-ArePlain [] entry none_left p = also p none_left
  append-ArePlain (e ∷ rest) entry (also h hs) p = also h (append-ArePlain rest entry hs p)

  abbrev IsPrepared : Ran (Work q) q.Stmt → Type 0
  IsPrepared r = IsWork r.result r.db × OnValue o.PlainStatement r.result

  statement_for-IsPrepared :
      (db : q.Db) (cache : Cache q) (sql : Bytes)
      → o.Plain sql
      → o.Open db c
      → ArePlain cache
      → IsPrepared (statement_for q (db, cache) sql)
  statement_for-IsPrepared db cache sql p h hs =
      by_found (find q cache sql) (find-Found cache sql hs)
    where
      by_prepared :
          (x : Prepared q.Stmt)
          → (q.prepare db sql).1 ≡ x
          → IsPrepared (emplace q cache sql (prepared_as q ((q.prepare db sql).0) x))
      by_prepared (prepared stmt) e =
          let (h₁, plain) = o.prepares db c sql stmt p h e in
          ((h₁, append-ArePlain cache (sql, stmt) hs plain), plain)
      by_prepared nothing_prepared e = ((o.prepares_ended db c sql h, hs), tt)
      by_prepared not_prepared e = ((o.prepares_ended db c sql h, hs), tt)

      by_found :
          (found : Option q.Stmt)
          → Found found
          → IsPrepared (elim found [
            | some stmt ↦ record { db = (db, cache); result = value stmt }
            | none ↦ emplace q cache sql (prepare q db sql)
          ])
      by_found none f = by_prepared (q.prepare db sql).1 refl
      by_found (some stmt) f = ((h, hs), f)

  run_one-IsWork :
      (work : Work q) (step : TransactionStep)
      → o.Plain step.sql
      → o.Open (work.0) c
      → ArePlain (work.1)
      → let r = run_one q work step in IsWork r.result r.db
  run_one-IsWork work step p h hs =
      let r = statement_for q work step.sql in
      let k = statement_for-IsPrepared (work.0) (work.1) step.sql p h hs in
      then_do_lem (λ (r : Ran (Work q) TransactionResult). IsWork r.result r.db) r
        (λ after stmt. in_cache q (after.1) (run_statement q step.type step (after.0) stmt))
        (λ e g. subst (λ (x : Result q.Stmt). IsWork x r.db) g k.0)
        (λ stmt g. (
          run_statement-IsStanding q o c step.type step (r.db.0) stmt
              (subst (OnValue o.PlainStatement) g k.1)
              (subst (λ (x : Result q.Stmt). Stands q o c x (r.db.0)) g k.0.0),
          k.0.1,
        ))

  steps_loop-IsWork :
      (steps : List TransactionStep) (work : Work q) (out : List TransactionResult)
      → Every (λ (step : TransactionStep). o.Plain step.sql) steps
      → o.Open (work.0) c
      → ArePlain (work.1)
      → let r = steps_loop q work steps out in IsWork r.result r.db
  unfolding steps_loop
  steps_loop-IsWork [] work out none_left h hs = (h, hs)
  steps_loop-IsWork (step ∷ rest) work out (also p ps) h hs =
      let one = run_one q work step in
      let w = run_one-IsWork work step p h hs in
      then_do_lem (λ (r : Ran (Work q) (List TransactionResult)). IsWork r.result r.db) one
        (λ work₁ r. steps_loop q work₁ rest (out ++ r ∷ []))
        (λ e g. subst (λ (x : Result TransactionResult). IsWork x one.db) g w)
        (λ r g.
          steps_loop-IsWork rest one.db (out ++ r ∷ []) ps
            (subst (λ (x : Result TransactionResult). Stands q o c x (one.db.0)) g w.0) w.1)

  finalize_all-Stands {ℓ} :
      {A : Type ℓ} (r : Result A) (db : q.Db) (cache : Cache q)
      → Stands q o c r db
      → Stands q o c r (finalize_all q db cache)
  unfolding finalize_all
  finalize_all-Stands r db [] h = h
  finalize_all-Stands {A = A} (unexpected e) db ((s, stmt) ∷ rest) h =
      finalize_all-Stands {A = A} (unexpected e) (q.finalize db stmt) rest
        (o.finalizes_ended db c stmt h)
  finalize_all-Stands {A = A} (value a) db ((s, stmt) ∷ rest) h =
      finalize_all-Stands {A = A} (value a) (q.finalize db stmt) rest (o.finalizes db c stmt h)

  pub run_steps-Stands :
      (steps : List TransactionStep) (db : q.Db)
      → Every (λ (step : TransactionStep). o.Plain step.sql) steps
      → o.Open db c
      → Stands q o c (run_steps q steps db).result (run_steps q steps db).db
  unfolding run_steps
  run_steps-Stands steps db p h =
      let r = steps_loop q (db, []) steps [] in
      finalize_all-Stands r.result (r.db.0) (r.db.1)
        (steps_loop-IsWork steps (db, []) [] p h none_left).0
