-- ===== src/Process/Examples.antt =====
-- Tests of the model of processes, and the theorems at concrete inputs.
use vacps.Prelude.{◌≤◌, ◌≡◌, ◌⊎◌, refl, List, [], ◌∷◌, ◌++◌, true, some, arith, length, min}
use vacps.Process.Budget.{ProcessBudget, try_acquire_process}
use vacps.Process.Budget.Laws.{try_acquire_process_lem}
use vacps.Process.State.{ProcessStream, stdout, stderr, exited, StartOptions, World, new_process}
use vacps.Process.Capture.{append_capture, acc_of}
use vacps.Process.Reading.{ReadOptions, ReadResult, collect}
use vacps.Process.Reading.Log.{remaining}
use vacps.Process.Reading.Exact.{IsStored, Collected, collect-exact}
use vacps.Process.Reading.Appends.{Grew}
use vacps.Process.Reading.Capturing.{fitting, append_capture-Grew, Counted, append_capture-Counted}
use vacps.Process.Reading.Session.{
  Act, drained, asked, Reader, session, session-lossless, new_reader, fresh_world, whole_log,
  project,
}
use vacps.Process.Reading.Preview.{
  IsCut, utf8_prefix_size, utf8_prefix_size-IsCut, prefix_loop, is_continuation, snapshot,
  snapshot-honest,
}
use vacps.Process.Lifecycle.Flags.{flags}
use vacps.Process.Lifecycle.Account.{IsCharged, account}
use vacps.Process.Lifecycle.Budgeted.{Reach-Charged}
use vacps.Process.Lifecycle.Control.{
  Event, starts, closes, launched, step, start, spawn, hold_slot, set_budget, set_running,
  arm_timeout,
}
use vacps.Process.Lifecycle.{reset_slot}
use vacps.Process.Waiting.{decode_terminate_signal}
use vacps.CommandLine.Names.{same_bytes}
use vacps.Process.Lifecycle.Phases.{Phase, idle, live, ended, At, Moved, Enabled}
use vacps.Process.Lifecycle.Refinement.{Reach, here, next, Later, step-Moved, Reach-At}
use vacps.Process.Lifecycle.Closing.{none_left, pending, IsCompletion, close_ends}

abbrev small_budget : ProcessBudget
small_budget = record {
  limits = record { max_running = 2; max_total_buffer_bytes = 10 };
  running = 1;
  buffered = 4;
}

abbrev options : StartOptions
options = record {
  cwd = [];
  timeout = 0;
  close_stdin = true;
  max_stdout_bytes = 5;
  max_stderr_bytes = 5;
}

abbrev new_world : World
new_world = fresh_world true options small_budget

abbrev start_event : Event
start_event = starts ((b'l' ∷ b's' ∷ []) ∷ []) options (launched 77)

abbrev started_world : World
started_world = step start_event new_world

-- The counter has one process, and another thread starts a second one in between.
try_acquire_process_lem_example : 2 ≤ (try_acquire_process (2 ∷ []) small_budget).0.running
unfolding try_acquire_process
try_acquire_process_lem_example =
    ((try_acquire_process_lem (2 ∷ []) small_budget (omega arith)).3 refl).0

-- Two reads of standard output, the second cut by the caps, and one of standard error.
abbrev some_acts : List Act
some_acts =
    drained stdout (1 ∷ 2 ∷ 3 ∷ []) 100
    ∷ asked 2
    ∷ drained stderr (9 ∷ []) 101
    ∷ drained stdout (4 ∷ 5 ∷ 6 ∷ []) 102
    ∷ asked 100
    ∷ []

abbrev grown_world : World
grown_world = append_capture stdout (1 ∷ 2 ∷ 3 ∷ []) 100 new_world

grown-IsStored : IsStored grown_world.capture
unfolding new_process
grown-IsStored =
    (append_capture-Grew stdout (1 ∷ 2 ∷ 3 ∷ []) 100 new_world (omega arith)).stored
      (record { first = 1; stored = refl })

abbrev from_second : ReadOptions
from_second = record { cursor = record { sequence = 1; byte_offset = 1 }; max_bytes = 1; wait = 0 }

collect-exact_example :
    (r : ReadResult) × (collect grown_world from_second ≡ some r)
    × Collected grown_world from_second r
collect-exact_example = collect-exact grown_world from_second grown-IsStored

append_capture-Grew_example :
    Grew new_world.capture
      (append_capture stdout (1 ∷ 2 ∷ []) 100 new_world).capture
      stdout
      (fitting stdout (1 ∷ 2 ∷ []) new_world)
append_capture-Grew_example =
    append_capture-Grew stdout (1 ∷ 2 ∷ []) 100 new_world (unfold new_process in omega arith)

append_capture-Counted_example :
    Counted stderr (7 ∷ []) new_world (append_capture stderr (7 ∷ []) 5 new_world)
append_capture-Counted_example = append_capture-Counted stderr (7 ∷ []) 5 new_world

session-lossless_example :
    (r : Reader) × (session (new_reader new_world) some_acts ≡ some r)
    × (r.got ++ remaining r.world.capture r.cursor r.world.chunks ≡ whole_log r.world)
    × ((t : ProcessStream) → project t (whole_log r.world) ≡ acc_of t r.world.capture)
session-lossless_example = session-lossless true options small_budget some_acts (omega arith)

-- "é" takes two bytes, and a cut behind the first of them goes before it.
utf8_prefix_size-IsCut_example :
    IsCut (0x61 ∷ 0xc3 ∷ 0xa9 ∷ []) (min 3 2) (utf8_prefix_size (0x61 ∷ 0xc3 ∷ 0xa9 ∷ []) 2)
utf8_prefix_size-IsCut_example = utf8_prefix_size-IsCut (0x61 ∷ 0xc3 ∷ 0xa9 ∷ []) 2

utf8_cut : utf8_prefix_size (0x61 ∷ 0xc3 ∷ 0xa9 ∷ []) 2 ≡ 1
unfolding utf8_prefix_size prefix_loop is_continuation
utf8_cut = refl

snapshot-honest_example : length (snapshot grown_world 2 2).stdout_str ≤ 2
snapshot-honest_example = (snapshot-honest grown_world 2 2).0

new_idle : At idle (flags new_world)
unfolding flags new_process
new_idle = ground arith

started_live : At live (flags started_world)
unfolding step start spawn try_acquire_process hold_slot reset_slot set_budget set_running
    arm_timeout flags new_process
started_live = ground arith

step-Moved_example : Moved idle (flags started_world)
step-Moved_example = step-Moved idle start_event new_world new_idle tt

started_Reach : Reach new_world started_world
started_Reach = next start_event here tt

Reach-At_example : (q : Phase) × Later idle q × At q (flags started_world)
Reach-At_example = Reach-At true options small_budget started_world started_Reach

close_ends_example :
    ((pending (flags (step (closes 5) started_world)) ≡ 0)
      × At ended (flags (step (closes 5) started_world)))
    ⊎ ((e : Event) × IsCompletion e × Enabled e (flags (step (closes 5) started_world)))
close_ends_example =
    close_ends started_world (step (closes 5) started_world) 5 started_live none_left

Reach-Charged_example : IsCharged 1 4 (account started_world)
Reach-Charged_example =
    Reach-Charged options small_budget started_world (omega arith) (omega arith) (omega arith)
      (omega arith) started_Reach

-- The process of `new_world` after it has exited and its pipes have ended.
abbrev exited_world : World
exited_world = record new_world {
  st = record new_world.st { start_called = true; finished = true; status = exited };
}

interrupt : decode_terminate_signal (b'S' ∷ b'I' ∷ b'G' ∷ b'I' ∷ b'N' ∷ b'T' ∷ []) ≡ some 2
unfolding decode_terminate_signal same_bytes
interrupt = refl
