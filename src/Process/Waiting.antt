-- ===== src/Process/Waiting.antt =====
-- `decode_terminate_signal` and `Process::wait` of process.cpp.
use vacps.Prelude.{ℕ, ℤ, [], ◌∷◌, Bool, not, ◌||◌, Option, none, some, if◌then◌else◌}
use vacps.Process.State.{Bytes, World}
use vacps.Process.Lifecycle.{is_closed}
use vacps.CommandLine.Names.{same_bytes}

-- The signals' numbers on Linux; `none` is the error of an unsupported signal.
unfoldable pub decode_terminate_signal : Bytes → Option ℕ
decode_terminate_signal signal =
    if same_bytes signal []
      || same_bytes signal (b'S' ∷ b'I' ∷ b'G' ∷ b'T' ∷ b'E' ∷ b'R' ∷ b'M' ∷ [])
    then some 15
    else if same_bytes signal (b'S' ∷ b'I' ∷ b'G' ∷ b'I' ∷ b'N' ∷ b'T' ∷ [])
    then some 2
    else if same_bytes signal (b'S' ∷ b'I' ∷ b'G' ∷ b'K' ∷ b'I' ∷ b'L' ∷ b'L' ∷ [])
    then some 9
    else none

pub record RunResult : Type 0 where
  pub exit_code : ℤ
  pub timed_out : Bool
  pub stdout_str : Bytes
  pub stderr_str : Bytes
  pub stdout_bytes : ℕ
  pub stderr_bytes : ℕ
  pub stdout_truncated : Bool
  pub stderr_truncated : Bool

pub data WaitResult : Type 0 where
  process_closed not_started closed_before_completion : WaitResult
  completed : RunResult → WaitResult

unfoldable pub run_result : World → RunResult
run_result w = record {
  exit_code = w.exit_code;
  timed_out = w.timed_out;
  stdout_str = w.stdout_acc;
  stderr_str = w.stderr_acc;
  stdout_bytes = w.produced_out;
  stderr_bytes = w.produced_err;
  stdout_truncated = w.st.stdout_truncated;
  stderr_truncated = w.st.stderr_truncated;
}

-- The part of `wait` behind the suspension.
unfoldable pub wait_end : World → WaitResult
wait_end w =
    if is_closed w.status
    then process_closed
    else if not w.finished
    then closed_before_completion
    else completed (run_result w)

-- The call in the world `w`, which is resumed in the world `later` where it suspends.
unfoldable pub wait : World → World → WaitResult
wait w later =
    if is_closed w.status
    then process_closed
    else if not w.start_called
    then not_started
    else wait_end (if w.finished then w else later)
