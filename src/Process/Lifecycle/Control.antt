-- ===== src/Process/Lifecycle/Control.antt =====
-- `Process::start`, `terminate`, `async_close` and `dispose`, and the handlers that `start` leaves
-- on the executor: one event of the executor is one step.
use vacps.Prelude.{
  ℕ, ℤ, List, [], ◌∷◌, Bool, true, false, not, ◌||◌, ltb, ◌==◌, if◌then◌else◌, ◌++◌,
}
use vacps.Process.Budget.{ProcessBudget, try_acquire_process}
use vacps.Process.State.{
  Bytes, created, starting, running, ProcessStream, stdout, stderr, StartOptions, no_pipe,
  pipe_open, pipe_closed, World,
}
use vacps.Process.Capture.{append_capture}
use vacps.Process.Lifecycle.{
  sigkill, is_closed, kill_group, reset_slot, finalize_close, try_finish, on_process_exit,
  begin_close,
}

pub data StartError : Type 0 where
  process_closed already_started empty_argv no_budget too_many_processes spawn_failed : StartError

pub data Outcome : Type 0 where
  success : Outcome
  failed : StartError → Outcome

-- What the launch does: it fails, or it gives a process, after which setting up the timers fails
-- or not.
pub data Spawn : Type 0 where
  launch_failed : Spawn
  setup_failed launched : ℕ → Spawn

abbrev pub has_program : List Bytes → Bool
has_program [] = false
has_program ([] ∷ args) = false
has_program (program ∷ args) = true

unfoldable pub forget_child : World → World
forget_child w = record w {
  st = record w.st {
    proc = false;
    out_pipe = no_pipe;
    err_pipe = no_pipe;
    in_pipe = no_pipe;
    pgid = 0;
    start_called = false;
    stdin_open = false;
  };
}

unfoldable pub mark_created : World → World
mark_created w = record w { st = record w.st { status = created } }

unfoldable pub fail_spawn : World → World
fail_spawn w =
    let w₁ = kill_group sigkill w in let w₂ = reset_slot (forget_child w₁) in mark_created w₂

-- The assignments after a launch.
unfoldable pub set_running : StartOptions → ℕ → World → World
set_running opts pid w = record w {
  st = record w.st {
    pgid = pid;
    proc = true;
    start_called = true;
    status = running;
    stdin_open = not opts.close_stdin;
    in_pipe = if opts.close_stdin then pipe_closed else pipe_open;
  };
}

unfoldable pub arm_timeout : StartOptions → World → World
arm_timeout opts w = record w {
  st = record w.st { timeout_timer = ltb 0 opts.timeout || w.timeout_timer };
}

unfoldable pub spawn : StartOptions → Spawn → World → World × Outcome
spawn opts launch_failed w = (fail_spawn w, failed spawn_failed)
spawn opts (setup_failed pid) w = (fail_spawn (set_running opts pid w), failed spawn_failed)
spawn opts (launched pid) w = (arm_timeout opts (set_running opts pid w), success)

-- The slot and the pipes, before the launch.
unfoldable pub hold_slot : World → World
hold_slot w = record w {
  st = record w.st {
    slot = true;
    status = starting;
    out_pipe = pipe_open;
    err_pipe = pipe_open;
    in_pipe = pipe_open;
  };
}

unfoldable pub set_budget : ProcessBudget → World → World
set_budget b w = record w { budget = b }

unfoldable pub start : List Bytes → StartOptions → Spawn → World → World × Outcome
start argv opts launch w =
    let (budget, acquired) = try_acquire_process [] w.budget in
    let begun = spawn opts launch (hold_slot (reset_slot (set_budget budget w))) in
    let full = mark_created (set_budget budget w) in
    if is_closed w.status || w.closing
    then (w, failed process_closed)
    else if w.start_called
    then (w, failed already_started)
    else if not (has_program argv)
    then (w, failed empty_argv)
    else if not w.has_budget
    then (w, failed no_budget)
    else if acquired
    then begun
    else (full, failed too_many_processes)

unfoldable pub mark_eof : ProcessStream → World → World
mark_eof stdout w = record w { st = record w.st { out_eof = true } }
mark_eof stderr w = record w { st = record w.st { err_eof = true } }

-- The end of the drain coroutine of a stream: an error, or a read of no bytes.
unfoldable pub drain_end : ProcessStream → World → World
drain_end s w = try_finish (mark_eof s w)

-- The end of the coroutine that waits for the child.
unfoldable pub reap : ℤ → ℕ → World → World
reap code signal w = on_process_exit code signal (if w.timed_out then kill_group sigkill w else w)

unfoldable pub mark_timed_out : World → World
mark_timed_out w = record w { st = record w.st { timed_out = true } }

-- The handler of the timeout timer; `cancelled_wait` is its error code.
unfoldable pub on_timeout : Bool → World → World
on_timeout cancelled_wait w =
    if cancelled_wait || w.finished || w.process_exited || is_closed w.status
    then w
    else kill_group sigkill (mark_timed_out w)

-- The handler of the grace timer.
unfoldable pub on_grace : Bool → World → World
on_grace cancelled_wait w =
    if cancelled_wait || w.finished || is_closed w.status then w else kill_group sigkill w

pub data TerminateError : Type 0 where
  terminate_closed terminate_not_started : TerminateError

pub data Terminated : Type 0 where
  done : Terminated
  refused : TerminateError → Terminated

unfoldable pub arm_grace : World → World
arm_grace w = record w { st = record w.st { grace_timer = true } }

unfoldable pub terminate : ℕ → World → World × Terminated
terminate sig w =
    let w₁ = kill_group sig w in
    if is_closed w.status || w.closing
    then (w, refused terminate_closed)
    else if not w.start_called
    then (w, refused terminate_not_started)
    else if w.finished || w.process_exited
    then (w, done)
    else if sig == sigkill
    then (w₁, done)
    else (arm_grace w₁, done)

unfoldable pub add_finish_waiter : ℕ → World → World
add_finish_waiter gate w = record w {
  st = record w.st { finish_waiters = w.finish_waiters ++ gate ∷ [] };
}

-- One round of the loop of `async_close`, with the gate that it would wait on.
unfoldable pub close_round : ℕ → World → World
close_round gate w =
    if is_closed w.status
    then w
    else if w.finished
    then finalize_close w
    else add_finish_waiter gate w

unfoldable pub async_close : ℕ → World → World
async_close gate w = if is_closed w.status then w else close_round gate (begin_close w)

-- What the executor runs.
pub data Event : Type 0 where
  starts : List Bytes → StartOptions → Spawn → Event
  reads : ProcessStream → Bytes → ℕ → Event
  read_ends : ProcessStream → Event
  exits : ℤ → ℕ → Event
  timeout_fires grace_fires : Bool → Event
  terminates closes close_resumes : ℕ → Event
  disposes : Event

unfoldable pub step : Event → World → World
step (starts argv opts launch) w = (start argv opts launch w).0
step (reads s bytes now) w = append_capture s bytes now w
step (read_ends s) w = drain_end s w
step (exits code signal) w = reap code signal w
step (timeout_fires e) w = on_timeout e w
step (grace_fires e) w = on_grace e w
step (terminates sig) w = (terminate sig w).0
step (closes gate) w = async_close gate w
step (close_resumes gate) w = close_round gate w
step disposes w = begin_close w
