-- ===== src/Store.antt =====
-- storage/store.hpp and storage/database.hpp: the data of a store, and what is used of SQLite,
-- which is a parameter.
use vacps.Prelude.{◌≡◌, refl, ℕ, ℤ, pos, negsuc, List, Bool, true, false, Option, ltb}
use vacps.Process.State.{Bytes}
pub mod Statement
pub mod Transaction
pub mod Queries
pub mod Performed
pub mod Performs
pub mod Checked
pub mod Open
pub mod Standing
pub mod Atomic
pub mod Counter
mod Examples

-- A double is its 64 bits.
pub data SqlValue : Type 0 where
  sql_null : SqlValue
  sql_int : ℤ → SqlValue
  sql_real : ℕ → SqlValue
  sql_text : Bytes → SqlValue
  sql_blob : Bytes → SqlValue

pub record QueryResult : Type 0 where
  pub columns : List Bytes
  pub rows : List (List SqlValue)

pub record RunResult : Type 0 where
  pub changes : ℤ
  pub last_insert_rowid : ℤ

pub data Kind : Type 0 where
  exactly at_least at_most : Kind

pub record ExpectedChanges : Type 0 where
  pub kind : Kind
  pub n : ℤ

pub data StepType : Type 0 where
  run_step query_step : StepType

pub record TransactionStep : Type 0 where
  pub sql : Bytes
  pub params : List SqlValue
  pub type : StepType
  pub expected_changes : Option ExpectedChanges
  pub max_rows : ℕ
  pub max_bytes : Option ℕ

pub data TransactionResult : Type 0 where
  run_result : RunResult → TransactionResult
  query_result : QueryResult → TransactionResult

-- An error with what is formatted into its message. `unfinished` is a loop cut short.
pub data StoreError : Type 0 where
  store_closed prepare_failed no_statement execute_failed query_failed unfinished : StoreError
  exec_failed : Bytes → StoreError
  bind_failed : ℕ → StoreError
  exceeded_max_bytes : ℕ → ℕ → StoreError
  exceeded_max_rows : ℕ → StoreError
  unexpected_changes : ExpectedChanges → ℤ → StoreError

pub data Result {ℓ} (A : Type ℓ) : Type ℓ where
  unexpected : StoreError → Result A
  value : A → Result A

-- What `sqlite3_prepare_v2`, `sqlite3_step` and `sqlite3_column_type` answer.
pub data Prepared (Stmt : Type 0) : Type 0 where
  prepared : Stmt → Prepared Stmt
  nothing_prepared not_prepared : Prepared Stmt

pub data StepCode : Type 0 where
  done row step_failed : StepCode

-- The value of a column; a pointer to data may be null.
pub data Column : Type 0 where
  null_column : Column
  integer_column : ℤ → Column
  float_column : ℕ → Column
  blob_column text_column : Option Bytes → Column

-- A connection with its statements is a `Db`; `exec` answers with its message if it fails.
pub record Sqlite : Type 1 where
  pub Db : Type 0
  pub Stmt : Type 0
  pub exec : Db → Bytes → Db × Option Bytes
  pub prepare : Db → Bytes → Db × Prepared Stmt
  pub bind : Db → Stmt → ℕ → SqlValue → Db × Bool
  pub step : Db → Stmt → Db × StepCode
  pub column_names : Db → Stmt → List Bytes
  pub row_columns : Db → Stmt → List Column
  pub reset : Db → Stmt → Db
  pub finalize : Db → Stmt → Db
  pub changes : Db → ℤ
  pub last_insert_rowid : Db → ℤ

-- What a call leaves and gives.
pub record Ran {ℓ κ} (D : Type ℓ) (A : Type κ) : Type (ℓ ⊔ κ) where
  pub db : D
  pub result : Result A

-- An early return on an error.
abbrev pub then_do {ℓ κ μ} :
    {D : Type ℓ} {A : Type κ} {B : Type μ} → Ran D A → (D → A → Ran D B) → Ran D B
then_do r f = elim r.result [
  | unexpected e ↦ record { db = r.db; result = unexpected e }
  | value a ↦ f r.db a
]

pub then_do_lem {ℓ κ μ ν} :
    {D : Type ℓ} {A : Type κ} {B : Type μ} (Q : Ran D B → Type ν) (r : Ran D A)
    (f : D → A → Ran D B)
    → ((e : StoreError) → r.result ≡ unexpected e → Q (record { db = r.db; result = unexpected e }))
    → ((a : A) → r.result ≡ value a → Q (f r.db a))
    → Q (then_do r f)
then_do_lem {A = A} Q r f g h = by_result r.result refl
  where
    by_result :
        (x : Result A)
        → r.result ≡ x
        → Q (elim x [
          | unexpected e ↦ record { db = r.db; result = unexpected e }
          | value a ↦ f r.db a
        ])
    by_result (unexpected e) p = g e p
    by_result (value a) p = h a p

-- Comparison of signed integers.
abbrev pub less : ℤ → ℤ → Bool
less (pos a) (pos b) = ltb a b
less (pos a) (negsuc b) = false
less (negsuc a) (pos b) = true
less (negsuc a) (negsuc b) = ltb b a
