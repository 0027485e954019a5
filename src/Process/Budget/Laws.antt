-- ===== src/Process/Budget/Laws.antt =====
-- The compare-exchange loops of the budget, whatever the other threads do in between.
use vacps.Prelude.{
  ℕ, suc, ◌+◌, ◌≤◌, ◌<◌, ◌≡◌, inl, inr, refl, List, [], ◌∷◌, some, get_elem?, Every, none_left,
  also, true, false, arith, leb, Bool-cases,
}
use vacps.Process.Budget.{u64_mod, ProcessBudget, try_acquire_process}

-- The last of some values, the first of which is given apart.
abbrev pub latest : ℕ → List ℕ → ℕ
latest x [] = x
latest x (y ∷ ys) = latest y ys

-- Whatever values other threads leave in the counter between the rounds of the loop: a slot is
-- acquired only where all values seen are below the limit, by counting one more on the last, so that
-- the counter ends within the limit; a refusal leaves the counter at a value that was seen, and that
-- has reached the limit. The limits and the count of buffered bytes stay.
pub try_acquire_process_lem :
    (rounds : List ℕ) (b : ProcessBudget)
    → b.max_running < u64_mod
    → let (b', acquired) = try_acquire_process rounds b in
      (b'.limits ≡ b.limits)
      × (b'.buffered ≡ b.buffered)
      × (acquired ≡ true
          → Every (λ (seen : ℕ). seen < b.max_running) (b.running ∷ rounds)
            × (b'.running ≤ b.max_running)
            × (b'.running ≡ latest b.running rounds + 1))
      × (acquired ≡ false
          → (b.max_running ≤ b'.running)
            × ((i : ℕ) × (get_elem? (b.running ∷ rounds) i ≡ some b'.running)))
unfolding try_acquire_process
try_acquire_process_lem [] b fits = elim (Bool-cases (leb b.max_running b.running)) [
  | inl full ↦ rw full (refl, refl, λ e. cc, λ e. (ground arith, (0, refl)))
  | inr room ↦
      rw room
        (refl, refl, λ e. (also (ground arith) none_left, ground arith, ground arith), λ e. cc)
]
try_acquire_process_lem (seen ∷ rounds) b fits = elim (Bool-cases (leb b.max_running b.running)) [
  | inl full ↦ rw full (refl, refl, λ e. cc, λ e. (ground arith, (0, refl)))
  | inr room ↦
      let (l, t, acquires, refuses) =
        try_acquire_process_lem rounds (record b { running = seen }) fits in
      rw room (
        l,
        t,
        λ e. (also (ground arith) (acquires e).0, (acquires e).1, (acquires e).2),
        λ e. ((refuses e).0, (suc (refuses e).1.0, (refuses e).1.1)),
      )
]
