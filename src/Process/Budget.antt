-- ===== src/Process/Budget.antt =====
-- process/budget.hpp and budget.cpp: the counters that all processes share.
-- A compare-exchange loop is run against the list of the values that other threads leave in the
-- counter at its failed rounds (a spurious failure leaves the old value); the round after the
-- last of them succeeds.
pub mod Laws
use vacps.Prelude.{
  ℕ, ◌+◌, ◌-◌, ◌*◌, ◌%◌, ◌^◌, List, [], ◌∷◌, Bool, true, false, ltb, leb, ◌==◌, if◌then◌else◌,
}

-- `size_t` and `uint64_t` have 64 bits.
abbrev pub u64_mod : ℕ
u64_mod = 2 ^ 64

pub record ProcessLimits : Type 0 where
  pub max_running : ℕ
  pub max_total_buffer_bytes : ℕ

pub record ProcessBudget : Type 0 where
  pub limits : ProcessLimits
  pub open limits use *
  pub running : ℕ
  pub buffered : ℕ

unfoldable pub new_budget : ProcessLimits → ProcessBudget
new_budget l = record {
  limits = record {
    max_running = if l.max_running == 0 then 128 else l.max_running;
    max_total_buffer_bytes =
        if l.max_total_buffer_bytes == 0 then 64 * 1024 * 1024 else l.max_total_buffer_bytes;
  };
  running = 0;
  buffered = 0;
}

-- `true` for the slot, `false` for the error "too many concurrent processes".
unfoldable pub try_acquire_process : List ℕ → ProcessBudget → ProcessBudget × Bool
try_acquire_process [] b =
    if leb b.max_running b.running
    then (b, false)
    else (record b { running = (b.running + 1) % u64_mod }, true)
try_acquire_process (seen ∷ rounds) b =
    let retry = try_acquire_process rounds (record b { running = seen }) in
    if leb b.max_running b.running then (b, false) else retry

unfoldable pub release_process : List ℕ → ProcessBudget → ProcessBudget
release_process [] b = if ltb 0 b.running then record b { running = b.running - 1 } else b
release_process (seen ∷ rounds) b =
    let retry = release_process rounds (record b { running = seen }) in
    if ltb 0 b.running then retry else b

unfoldable pub global_buffer_room : ProcessBudget → ℕ
global_buffer_room b =
    if leb b.max_total_buffer_bytes b.buffered then 0 else b.max_total_buffer_bytes - b.buffered

unfoldable pub add_buffered : ℕ → ProcessBudget → ProcessBudget
add_buffered n b = if n == 0 then b else record b { buffered = (b.buffered + n) % u64_mod }

sub_rounds : List ℕ → ℕ → ProcessBudget → ProcessBudget
sub_rounds [] n b = record b { buffered = if ltb n b.buffered then b.buffered - n else 0 }
sub_rounds (seen ∷ rounds) n b = sub_rounds rounds n (record b { buffered = seen })

unfoldable pub sub_buffered : List ℕ → ℕ → ProcessBudget → ProcessBudget
unfolding sub_rounds
sub_buffered rounds n b = if n == 0 then b else sub_rounds rounds n b
