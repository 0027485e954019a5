-- ===== src/Store/Counter.antt =====
-- A small database that does what SQLite documents of transactions: its contents are a number,
-- which each statement that starts with `i` counts up. One that starts with `x` fails and rolls the
-- transaction back by itself, behind which a ROLLBACK fails. Any other statement gives the number
-- in one row.
use vacps.Prelude.{
  ℕ, zero, suc, ◌+◌, ◌≡◌, ◌≢◌, refl, pos, [], ◌∷◌, Bool, true, false, Option, none, some, ◌==◌,
  if◌then◌else◌, if-keeps, ◌∙◌,
}
use vacps.Process.State.{Bytes}
use vacps.Store.{prepared, StepCode, done, row, step_failed, integer_column, Sqlite}
use vacps.Store.Open.{IsTransactional}

pub record CounterDb : Type 0 where
  pub saved : ℕ
  pub current : ℕ
  pub rows_left : ℕ
  pub active : Bool

abbrev first_is : ℕ → Bytes → Bool
first_is c [] = true
first_is c (d ∷ ds) = c == d

abbrev counter_rollback : CounterDb → CounterDb × Option Bytes
counter_rollback db =
    if db.active then (record db { current = db.saved; active = false }, none) else (db, some [])

abbrev counter_exec : CounterDb → Bytes → CounterDb × Option Bytes
counter_exec db sql =
    if first_is b'C' sql
    then (record db { saved = db.current; active = false }, none)
    else if first_is b'R' sql
    then counter_rollback db
    else (record db { current = db.saved; active = true }, none)

abbrev give_row : CounterDb → ℕ → CounterDb × StepCode
give_row db zero = (db, done)
give_row db (suc n) = (record db { rows_left = n }, row)

abbrev counter_step : CounterDb → Bytes → CounterDb × StepCode
counter_step db sql =
    if first_is b'i' sql
    then (record db { current = db.current + 1 }, done)
    else if first_is b'x' sql
    then (record db { current = db.saved; active = false }, step_failed)
    else give_row db db.rows_left

abbrev pub counter : Sqlite
counter = record {
  Db = CounterDb;
  Stmt = Bytes;
  exec = counter_exec;
  prepare = λ db sql. (record db { rows_left = 1 }, prepared sql);
  bind = λ db stmt idx param. (db, true);
  step = counter_step;
  column_names = λ db stmt. (b'n' ∷ []) ∷ [];
  row_columns = λ db stmt. integer_column (pos db.current) ∷ [];
  reset = λ db stmt. record db { rows_left = 1 };
  finalize = λ db stmt. db;
  changes = λ db. pos 1;
  last_insert_rowid = λ db. pos db.current;
}

pub counter-IsTransactional : IsTransactional counter
counter-IsTransactional = record {
  Contents = ℕ;
  contents = λ db. db.saved;
  Plain = λ sql. Unit {0};
  PlainStatement = λ stmt. Unit {0};
  Open = λ db c. (db.saved ≡ c) × (db.active ≡ true);
  Ended = λ db c. db.saved ≡ c;
  open_ended = λ db c h. h.0;
  begins = λ db e. (refl, refl);
  begins_not = λ db m e. refl;
  prepares = λ db c sql stmt p h e. (h, tt);
  prepares_ended = λ db c sql h. h.0;
  binds = λ db c stmt idx param h e. h;
  binds_ended = λ db c stmt idx param h. h.0;
  steps = λ db c stmt p h e. (step_saved db stmt ∙ h.0, step_active db stmt h.1 e);
  steps_ended = λ db c stmt p h. step_saved db stmt ∙ h.0;
  resets = λ db c stmt h. h;
  resets_ended = λ db c stmt h. h;
  finalizes = λ db c stmt h. h;
  finalizes_ended = λ db c stmt h. h;
  rolls_back = λ db c h. rollback_saved db ∙ h;
  commits_not = λ db c m h e. absurd (cc);
}
  where
    row_saved : (db : CounterDb) (n : ℕ) → (give_row db n).0.saved ≡ db.saved
    row_saved db zero = refl
    row_saved db (suc n) = refl

    step_saved : (db : CounterDb) (stmt : Bytes) → (counter_step db stmt).0.saved ≡ db.saved
    step_saved db stmt =
        let P = λ (r : CounterDb × StepCode). r.0.saved ≡ db.saved in
        if-keeps P (first_is b'i' stmt) _ _ refl
          (if-keeps P (first_is b'x' stmt) _ _ refl (row_saved db db.rows_left))

    row_active : (db : CounterDb) (n : ℕ) → db.active ≡ true → (give_row db n).0.active ≡ true
    row_active db zero h = h
    row_active db (suc n) h = h

    -- A statement that does not fail leaves the transaction open.
    step_active :
        (db : CounterDb) (stmt : Bytes)
        → db.active ≡ true
        → (counter_step db stmt).1 ≢ step_failed
        → (counter_step db stmt).0.active ≡ true
    step_active db stmt h =
        let P = λ (r : CounterDb × StepCode). r.1 ≢ step_failed → r.0.active ≡ true in
        if-keeps P (first_is b'i' stmt) _ _ (λ n. h)
          (if-keeps P (first_is b'x' stmt) _ _ (λ n. absurd (n refl))
            (λ n. row_active db db.rows_left h))

    rollback_saved : (db : CounterDb) → (counter_rollback db).0.saved ≡ db.saved
    rollback_saved db =
        if-keeps (λ (r : CounterDb × Option Bytes). r.0.saved ≡ db.saved) db.active _ _ refl refl

pub every_plain : (sql : Bytes) → counter-IsTransactional.Plain sql
unfolding counter-IsTransactional
every_plain sql = tt
