-- ===== src/Store/Queries.antt =====
-- The bounds of a query, `Statement::query_impl` of storage/database.cpp.
use vacps.Prelude.{
  ℕ, zero, suc, ◌+◌, ◌%◌, ◌≤◌, ◌<◌, ◌≡◌, ◌≢◌, subst, ◌∙◌, arith, List, [], ◌∷◌, ◌++◌, map, Bool,
  false, Option, none, some, leb, if-split, length, length-append,
}
use vacps.Process.State.{Bytes}
use vacps.Process.Budget.{u64_mod}
use vacps.Store.{
  SqlValue, QueryResult, StoreError, query_failed, unfinished, exceeded_max_bytes, Result,
  unexpected, value, StepCode, done, row, step_failed, Sqlite, Ran, then_do_lem,
}
use vacps.Store.Statement.{
  cell_bytes, column_value, add_names, add_cells, over, or_zero, bind_from, bind_all, rows_loop,
  all_rows, query_impl,
}

-- The bytes of the names and of the cells.
unfoldable pub names_size : List Bytes → ℕ
names_size [] = 0
names_size (name ∷ rest) = length name + names_size rest

unfoldable pub cells_size : List SqlValue → ℕ
cells_size [] = 0
cells_size (cell ∷ rest) = cell_bytes cell + cells_size rest

unfoldable pub rows_size : List (List SqlValue) → ℕ
rows_size [] = 0
rows_size (cells ∷ rest) = cells_size cells + rows_size rest

abbrev pub Within : Option ℕ → ℕ → Type 0
Within none n = Unit {0}
Within (some limit) n = n ≤ limit

-- A result of at most so many rows and bytes, which are counted in 64 bits; an error is not that
-- of a loop cut short.
abbrev pub IsBounded : ℕ → Option ℕ → Result QueryResult → Type 0
IsBounded max_rows max_bytes (unexpected e) = e ≢ unfinished
IsBounded max_rows max_bytes (value r) =
    (length r.rows ≤ max_rows)
    × Within max_bytes ((names_size r.columns + rows_size r.rows) % u64_mod)

abbrev IsRows : ℕ → Option ℕ → ℕ → Result (List (List SqlValue)) → Type 0
IsRows max_rows max_bytes base (unexpected e) = e ≢ unfinished
IsRows max_rows max_bytes base (value rows) =
    (length rows ≤ max_rows) × Within max_bytes ((base + rows_size rows) % u64_mod)

add_names-size :
    (n : ℕ) (names : List Bytes)
    → n < u64_mod
    → add_names n names ≡ (n + names_size names) % u64_mod
unfolding add_names names_size
add_names-size n [] h = omega arith
add_names-size n (name ∷ rest) h =
    add_names-size ((n + length name) % u64_mod) rest (omega arith) ∙ omega arith

add_cells-size :
    (n : ℕ) (cells : List SqlValue)
    → n < u64_mod
    → add_cells n cells ≡ (n + cells_size cells) % u64_mod
unfolding add_cells cells_size
add_cells-size n [] h = omega arith
add_cells-size n (cell ∷ rest) h =
    let b = cell_bytes cell in add_cells-size ((n + b) % u64_mod) rest (omega arith) ∙ omega arith

rows_size-append :
    (rows : List (List SqlValue)) (cells : List SqlValue)
    → rows_size (rows ++ cells ∷ []) ≡ rows_size rows + cells_size cells
unfolding rows_size
rows_size-append [] cells = omega arith
rows_size-append (r ∷ rest) cells = omega (arith, rows_size-append rest cells)

more_bytes :
    (base bytes : ℕ) (rows : List (List SqlValue)) (cells : List SqlValue)
    → bytes ≡ (base + rows_size rows) % u64_mod
    → add_cells bytes cells ≡ (base + rows_size (rows ++ cells ∷ [])) % u64_mod
more_bytes base bytes rows cells h =
    add_cells-size bytes cells (omega arith) ∙ omega (arith, rows_size-append rows cells)

within : (limit : Option ℕ) (n : ℕ) → over limit n ≡ false → Within limit n
within none n h = tt
within (some limit) n h = ground arith

module _ (q : Sqlite) where
  pub by_code :
      (P : Ran q.Db (List (List SqlValue)) → Type 0) (code : StepCode) (db : q.Db)
      (rows : List (List SqlValue)) (more : Ran q.Db (List (List SqlValue)))
      → P (record { db = db; result = value rows })
      → P (record { db = db; result = unexpected query_failed })
      → P more
      → P (elim code [
        | done ↦ record { db = db; result = value rows }
        | step_failed ↦ record { db = db; result = unexpected query_failed }
        | row ↦ more
      ])
  by_code P done db rows more a b c = a
  by_code P step_failed db rows more a b c = b
  by_code P row db rows more a b c = c

  -- The loop ends with its fuel: each row but the last is kept.
  rows_loop-IsRows :
      (n : ℕ) (db : q.Db) (stmt : q.Stmt) (max_rows : ℕ) (max_bytes : Option ℕ)
      (rows : List (List SqlValue)) (base bytes : ℕ)
      → length rows ≤ max_rows
      → max_rows < n + length rows
      → bytes ≡ (base + rows_size rows) % u64_mod
      → Within max_bytes bytes
      → IsRows max_rows max_bytes base (rows_loop q n db stmt max_rows max_bytes rows bytes).result
  unfolding rows_loop
  rows_loop-IsRows zero db stmt max_rows max_bytes rows base bytes h f e w = absurd (omega arith)
  rows_loop-IsRows (suc n) db stmt max_rows max_bytes rows base bytes h f e w =
      let next = q.step db stmt in
      let cells = map column_value (q.row_columns (next.0) stmt) in
      let bytes₁ = add_cells bytes cells in
      let P : Ran q.Db (List (List SqlValue)) → Type 0 =
        λ r. IsRows max_rows max_bytes base r.result in
      by_code P (next.1) (next.0) rows _ (h, subst (Within max_bytes) e w) (λ p. cc)
        (if-split P (leb max_rows (length rows)) _ _ (λ g p. cc)
          (λ g.
            if-split P (over max_bytes bytes₁) _ _ (λ o p. cc)
              (λ o.
                rows_loop-IsRows n (next.0) stmt max_rows max_bytes (rows ++ cells ∷ []) base bytes₁
                  (room max_rows (length rows) g (length-append rows (cells ∷ [])))
                  (omega (arith, length-append rows (cells ∷ [])))
                  (more_bytes base bytes rows cells e) (within max_bytes bytes₁ o))))
    where
      room : (m k : ℕ) {l : ℕ} → leb m k ≡ false → l ≡ k + 1 → l ≤ m
      room m k g e = ground arith

  bind_from-finishes :
      (db : q.Db) (stmt : q.Stmt) (idx : ℕ) (params : List SqlValue) (e : StoreError)
      → (bind_from q db stmt idx params).result ≡ unexpected e
      → e ≢ unfinished
  unfolding bind_from
  bind_from-finishes db stmt idx [] e = λ h. absurd (cc)
  bind_from-finishes db stmt idx (param ∷ rest) e =
      if-split (λ (r : Ran q.Db (Unit {0})). r.result ≡ unexpected e → e ≢ unfinished)
        (q.bind db stmt idx param).1 _ _
        (λ b. bind_from-finishes (q.bind db stmt idx param).0 stmt (idx + 1) rest e) (λ b h p. cc)

  all_rows-IsBounded :
      (db : q.Db) (stmt : q.Stmt) (max_rows : ℕ) (max_bytes : Option ℕ) (names : List Bytes)
      → IsBounded max_rows max_bytes
          (all_rows q db stmt max_rows max_bytes names (add_names 0 names)).result
  unfolding rows_size
  all_rows-IsBounded db stmt max_rows max_bytes names =
      let P : Ran q.Db QueryResult → Type 0 = λ r. IsBounded max_rows max_bytes r.result in
      let bytes = add_names 0 names in
      let counted : bytes ≡ (names_size names + 0) % u64_mod =
        add_names-size 0 names (omega arith) ∙ omega arith in
      let loop = rows_loop q (suc max_rows) db stmt max_rows max_bytes [] bytes in
      if-split P (over max_bytes bytes)
        (record { db = db; result = unexpected (exceeded_max_bytes (or_zero max_bytes) bytes) }) _
        (λ o p. cc)
        (λ o.
          let rows =
            rows_loop-IsRows (suc max_rows) db stmt max_rows max_bytes [] (names_size names) bytes
              (omega arith) (omega arith) counted (within max_bytes bytes o) in
          then_do_lem P loop
            (λ db₁ rows₁. record {
              db = db₁;
              result = value (record { columns = names; rows = rows₁ });
            })
            (λ e h. subst (IsRows max_rows max_bytes (names_size names)) h rows)
            (λ a h. subst (IsRows max_rows max_bytes (names_size names)) h rows))

  -- Whatever SQLite answers, the loop of a query ends, and a result has at most as many rows as are
  -- asked for and, with a limit on the bytes, names and cells up to it, counted in 64 bits.
  pub query_impl-IsBounded :
      (db : q.Db) (stmt : q.Stmt) (params : List SqlValue) (max_rows : ℕ) (max_bytes : Option ℕ)
      (enabled : Bool)
      → IsBounded max_rows max_bytes (query_impl q db stmt params max_rows max_bytes enabled).result
  unfolding query_impl
  query_impl-IsBounded db stmt params max_rows max_bytes enabled =
      then_do_lem (λ r. IsBounded max_rows max_bytes r.result) (bind_all q db stmt params)
        (λ db₁ u.
          all_rows q db₁ stmt max_rows max_bytes (q.column_names db₁ stmt)
            (add_names 0 (q.column_names db₁ stmt)))
        (λ e h. bind_from-finishes db stmt 1 params e h)
        (λ u h.
          let db₁ = (bind_all q db stmt params).db in
          all_rows-IsBounded db₁ stmt max_rows max_bytes (q.column_names db₁ stmt))
