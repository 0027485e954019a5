-- ===== src/Process/Lifecycle.antt =====
-- The noexcept methods of `Process::State` in process.cpp that move a process through its life.
pub mod Control
pub mod Flags
pub mod Steps
pub mod Phases
pub mod Refinement
pub mod Closing
pub mod Account
pub mod Budgeted
use vacps.Prelude.{
  ℕ, ℤ, [], ◌∷◌, ◌++◌, map, Bool, true, false, not, ◌&&◌, ◌||◌, ltb, ◌==◌, if◌then◌else◌,
}
use vacps.Process.Budget.{release_process}
use vacps.Process.State.{
  ProcessStatus, exited, signaled, timed_out_status, cancelled_status, closing_status, closed, Pipe,
  no_pipe, pipe_open, pipe_closed, World, kill, wake, cancel_timeout, cancel_grace, cancel_stdin,
  cancel_stdout, cancel_stderr,
}
use vacps.Process.Capture.{notify_read_waiters, clear_buffers}

abbrev pub sigkill : ℕ
sigkill = 9

abbrev pub is_closed : ProcessStatus → Bool
is_closed closed = true
is_closed _ = false

abbrev pub is_closing : ProcessStatus → Bool
is_closing closing_status = true
is_closing _ = false

abbrev pub has_pipe : Pipe → Bool
has_pipe no_pipe = false
has_pipe _ = true

unfoldable pub notify_finish_waiters : World → World
notify_finish_waiters w = record w {
  st = record w.st { finish_waiters = [] };
  effects = w.effects ++ map wake w.finish_waiters;
}

unfoldable pub notify_write_waiters : World → World
notify_write_waiters w = record w {
  st = record w.st { write_waiters = [] };
  effects = w.effects ++ map wake w.write_waiters;
}

unfoldable pub kill_group : ℕ → World → World
kill_group sig w =
    if ltb 0 w.pgid then record w { effects = w.effects ++ kill w.pgid sig ∷ [] } else w

-- `ProcessSlot::reset`.
unfoldable pub reset_slot : World → World
reset_slot w =
    if w.slot
    then record w { st = record w.st { slot = false }; budget = release_process [] w.budget }
    else w

unfoldable pub cancel_timeout_timer : World → World
cancel_timeout_timer w =
    if w.timeout_timer then record w { effects = w.effects ++ cancel_timeout ∷ [] } else w

unfoldable pub cancel_grace_timer : World → World
cancel_grace_timer w =
    if w.grace_timer then record w { effects = w.effects ++ cancel_grace ∷ [] } else w

unfoldable pub close_in_pipe : World → World
close_in_pipe w =
    if has_pipe w.in_pipe
    then record w {
      st = record w.st { in_pipe = pipe_closed };
      effects = w.effects ++ cancel_stdin ∷ [];
    }
    else w

unfoldable pub cancel_out_pipe : World → World
cancel_out_pipe w =
    if has_pipe w.out_pipe then record w { effects = w.effects ++ cancel_stdout ∷ [] } else w

unfoldable pub cancel_err_pipe : World → World
cancel_err_pipe w =
    if has_pipe w.err_pipe then record w { effects = w.effects ++ cancel_stderr ∷ [] } else w

unfoldable pub clear_stdin_open : World → World
clear_stdin_open w = record w { st = record w.st { stdin_open = false } }

unfoldable pub cancel_io : World → World
cancel_io w =
    let w₁ = close_in_pipe (cancel_grace_timer (cancel_timeout_timer w)) in
    let w₂ = cancel_err_pipe (cancel_out_pipe (clear_stdin_open w₁)) in
    notify_finish_waiters (notify_read_waiters (notify_write_waiters w₂))

unfoldable pub notify_all : World → World
notify_all w = notify_read_waiters (notify_write_waiters (notify_finish_waiters w))

unfoldable pub mark_closed : World → World
mark_closed w = record w { st = record w.st { status = closed; closing = false } }

-- The pointers that `finalize_close` resets.
unfoldable pub drop_handles : World → World
drop_handles w = record w {
  st = record w.st {
    proc = false;
    out_pipe = no_pipe;
    err_pipe = no_pipe;
    in_pipe = no_pipe;
    timeout_timer = false;
    grace_timer = false;
  };
}

unfoldable pub finalize_close : World → World
finalize_close w =
    if is_closed w.status
    then w
    else notify_all (reset_slot (drop_handles (clear_buffers (mark_closed w))))

-- The status that a finished process publishes: of the timeout, the cancellation and the signal.
abbrev pub terminal_status : Bool → Bool → ℕ → ProcessStatus
terminal_status was_timed_out was_cancelled signal =
    if was_timed_out
    then timed_out_status
    else if was_cancelled
    then cancelled_status
    else if signal == 0
    then exited
    else signaled

unfoldable pub mark_finished : World → World
mark_finished w = record w {
  st = record w.st {
    finished = true;
    stdin_open = false;
    status = if w.closing then w.status else terminal_status w.timed_out w.cancelled w.exit_signal;
  };
}

unfoldable pub reset_timers : World → World
reset_timers w = record w { st = record w.st { timeout_timer = false; grace_timer = false } }

-- The part of `try_finish` behind its two early returns.
unfoldable pub finish_now : World → World
finish_now w =
    let w₁ = reset_timers (cancel_grace_timer (cancel_timeout_timer (mark_finished w))) in
    let w₂ = notify_finish_waiters (notify_read_waiters (reset_slot w₁)) in
    if w.closing then finalize_close w₂ else w₂

unfoldable pub try_finish : World → World
try_finish w =
    if w.finished
    then w
    else if not w.process_exited || (not w.out_eof || not w.err_eof)
    then w
    else finish_now w

unfoldable pub mark_exited : ℤ → ℕ → World → World
mark_exited code signal w = record w {
  st = record w.st {
    process_exited = true;
    exit_code = code;
    exit_signal = signal;
    stdin_open = false;
  };
}

unfoldable pub reset_timeout_timer : World → World
reset_timeout_timer w = record w { st = record w.st { timeout_timer = false } }

unfoldable pub on_process_exit : ℤ → ℕ → World → World
on_process_exit code signal w =
    if w.process_exited
    then w
    else try_finish (reset_timeout_timer (cancel_timeout_timer (mark_exited code signal w)))

unfoldable pub mark_closing : World → World
mark_closing w = record w {
  st = record w.st { closing = true; status = closing_status; cancelled = true };
}

unfoldable pub begin_close : World → World
begin_close w =
    let shut = cancel_io (kill_group sigkill (mark_closing w)) in
    if is_closed w.status
    then w
    else if not w.start_called
    then notify_all (mark_closed w)
    else if w.finished
    then finalize_close shut
    else shut
