-- ===== src/Process/State.antt =====
-- process/process.hpp and `Process::State` of process.cpp: the data of one child process.
-- A shared pointer is `null` or not; a pending timer is known by its handle only; a waiter is the
-- number of its gate. `World` is what the owner executor sees: the state, the shared budget, and
-- the calls made so far on the operating system and on the gates, oldest first.
use vacps.Prelude.{ℕ, ℤ, pos, List, [], Bool, false}
use vacps.Process.Budget.{ProcessBudget}

-- A string of bytes, each below 256.
abbrev pub Bytes : Type 0
Bytes = List ℕ

pub data ProcessStatus : Type 0 where
  created starting running exited signaled timed_out_status cancelled_status : ProcessStatus
  closing_status closed : ProcessStatus

pub data ProcessStream : Type 0 where
  stdout stderr : ProcessStream

pub record StartOptions : Type 0 where
  pub cwd : Bytes
  pub timeout : ℕ
  pub close_stdin : Bool
  pub max_stdout_bytes : ℕ
  pub max_stderr_bytes : ℕ

pub record ChunkRef : Type 0 where
  pub sequence : ℕ
  pub stream : ProcessStream
  pub stream_offset : ℕ
  pub size : ℕ
  pub observed_at_ms : ℕ

-- The captured output: the fields of `State` that `append_capture` writes.
pub record Capture : Type 0 where
  pub stdout_acc : Bytes
  pub stderr_acc : Bytes
  pub max_out : ℕ
  pub max_err : ℕ
  pub produced_out : ℕ
  pub produced_err : ℕ
  pub stdout_truncated : Bool
  pub stderr_truncated : Bool
  pub chunks : List ChunkRef
  pub next_sequence : ℕ

pub data Pipe : Type 0 where
  no_pipe pipe_open pipe_closed : Pipe

pub record State : Type 0 where
  pub has_budget : Bool
  pub slot : Bool
  pub pgid : ℕ
  pub proc : Bool
  pub out_pipe : Pipe
  pub err_pipe : Pipe
  pub in_pipe : Pipe
  pub capture : Capture
  pub open capture use *
  pub finished : Bool
  pub process_exited : Bool
  pub timed_out : Bool
  pub cancelled : Bool
  pub stdin_open : Bool
  pub out_eof : Bool
  pub err_eof : Bool
  pub write_busy : Bool
  pub start_called : Bool
  pub closing : Bool
  pub status : ProcessStatus
  pub exit_code : ℤ
  pub exit_signal : ℕ
  pub finish_waiters : List ℕ
  pub write_waiters : List ℕ
  pub read_waiters : List ℕ
  pub timeout_timer : Bool
  pub grace_timer : Bool

pub data Effect : Type 0 where
  kill : ℕ → ℕ → Effect
  wake : ℕ → Effect
  cancel_timeout cancel_grace cancel_stdin cancel_stdout cancel_stderr : Effect

pub record World : Type 0 where
  pub st : State
  pub open st use *
  pub budget : ProcessBudget
  pub effects : List Effect

-- The constructor `Process::Process`.
unfoldable pub new_process : Bool → StartOptions → State
new_process has_budget opts = record {
  has_budget = has_budget;
  slot = false;
  pgid = 0;
  proc = false;
  out_pipe = no_pipe;
  err_pipe = no_pipe;
  in_pipe = no_pipe;
  capture = record {
    stdout_acc = [];
    stderr_acc = [];
    max_out = opts.max_stdout_bytes;
    max_err = opts.max_stderr_bytes;
    produced_out = 0;
    produced_err = 0;
    stdout_truncated = false;
    stderr_truncated = false;
    chunks = [];
    next_sequence = 1;
  };
  finished = false;
  process_exited = false;
  timed_out = false;
  cancelled = false;
  stdin_open = false;
  out_eof = false;
  err_eof = false;
  write_busy = false;
  start_called = false;
  closing = false;
  status = created;
  exit_code = pos 0;
  exit_signal = 0;
  finish_waiters = [];
  write_waiters = [];
  read_waiters = [];
  timeout_timer = false;
  grace_timer = false;
}
