-- ===== src/Process/Lifecycle/Phases.antt =====
-- The abstract machine of a process: its phases, the moves between them, and the refinement.
use vacps.Prelude.{ℕ, ◌≡◌, inl, inr, List, Bool, true, false, not, ◌&&◌, arith, Bool-cases}
use vacps.Process.State.{
  Bytes, ProcessStatus, created, running, closing_status, closed, ProcessStream, stdout, stderr,
}
use vacps.Process.Lifecycle.{terminal_status}
use vacps.Process.Lifecycle.Flags.{Flags, try_finish_flags, exit_flags, close_flags}
use vacps.Process.Lifecycle.Steps.{start_flags, eof_flags, timeout_flags, close_round_flags}
use vacps.Process.Lifecycle.Control.{
  Event, reads, read_ends, exits, Spawn, launch_failed, setup_failed, launched, has_program,
}

-- `idle` is before a successful start, `done` is finished and not closed, `dropped` is closed
-- without a start.
pub data Phase : Type 0 where
  idle live shutting done ended dropped : Phase

-- What the code may do to the phase.
pub data Move : Phase → Phase → Type 0 where
  stay : {p : Phase} → Move p p
  launches : Move idle live
  drops : Move idle dropped
  finishes : Move live done
  shuts : Move live shutting
  joins : Move shutting ended
  closes_done : Move done ended

abbrev pub was_started : Phase → Bool
was_started idle = false
was_started dropped = false
was_started _ = true

abbrev pub has_finished : Phase → Bool
has_finished done = true
has_finished ended = true
has_finished _ = false

abbrev pub status_at : Phase → Flags → ProcessStatus
status_at idle f = created
status_at live f = running
status_at shutting f = closing_status
status_at done f = terminal_status f.timed_out f.cancelled f.exit_signal
status_at ended f = closed
status_at dropped f = closed

abbrev pub is_shutting : Phase → Bool
is_shutting shutting = true
is_shutting _ = false

-- The flags are those of the phase: the process is finished exactly when the child was reaped and
-- both pipes are drained, and it holds its slot of the budget exactly from its start till then.
pub record At (p : Phase) (f : Flags) : Type 0 where
  pub started : f.start_called ≡ was_started p
  pub finish : f.finished ≡ has_finished p
  pub joined : (f.process_exited && (f.out_eof && f.err_eof)) ≡ has_finished p
  pub shuts : f.closing ≡ is_shutting p
  pub status : f.status ≡ status_at p f
  pub slot : f.slot ≡ (was_started p && not (has_finished p))
  pub none_yet :
      was_started p ≡ false → (f.process_exited ≡ false) × (f.out_eof ≡ false) × (f.err_eof ≡ false)

abbrev pub eof_of : ProcessStream → Flags → Bool
eof_of stdout f = f.out_eof
eof_of stderr f = f.err_eof

-- When the executor has the event: a drain coroutine runs until its end, and the child is reaped
-- once; both are started by a successful `start`. All other events can come at any time.
abbrev pub Enabled : Event → Flags → Type 0
Enabled (reads s bytes now) f = (f.start_called ≡ true) × (eof_of s f ≡ false)
Enabled (read_ends s) f = (f.start_called ≡ true) × (eof_of s f ≡ false)
Enabled (exits code signal) f = (f.start_called ≡ true) × (f.process_exited ≡ false)
Enabled _ f = Unit

abbrev pub Moved : Phase → Flags → Type 0
Moved p f = (q : Phase) × Move p q × At q f

pub close_flags-Moved : (p : Phase) (f : Flags) → At p f → Moved p (close_flags f)
close_flags-Moved idle f h = (dropped, drops, ground arith)
close_flags-Moved live f h = (shutting, shuts, ground arith)
close_flags-Moved shutting f h = (shutting, stay, ground arith)
close_flags-Moved done f h = (ended, closes_done, ground arith)
close_flags-Moved ended f h = (ended, stay, ground arith)
close_flags-Moved dropped f h = (dropped, stay, ground arith)

pub close_round-Moved : (p : Phase) (f : Flags) → At p f → Moved p (close_round_flags f)
close_round-Moved done f h = (ended, closes_done, ground arith)
close_round-Moved idle f h = (idle, stay, ground arith)
close_round-Moved live f h = (live, stay, ground arith)
close_round-Moved shutting f h = (shutting, stay, ground arith)
close_round-Moved ended f h = (ended, stay, ground arith)
close_round-Moved dropped f h = (dropped, stay, ground arith)

pub timeout-Moved : (p : Phase) (e : Bool) (f : Flags) → At p f → Moved p (timeout_flags e f)
timeout-Moved done e f h = (done, stay, ground arith)
timeout-Moved idle e f h = (idle, stay, ground arith)
timeout-Moved live e f h = (live, stay, ground arith)
timeout-Moved shutting e f h = (shutting, stay, ground arith)
timeout-Moved ended e f h = (ended, stay, ground arith)
timeout-Moved dropped e f h = (dropped, stay, ground arith)

-- The child was reaped or a pipe drained: `f` is the flags with that entered.
abbrev Entered : Phase → Flags → Type 0
Entered p f =
    (f.start_called ≡ true)
    × (f.finished ≡ false)
    × (f.closing ≡ is_shutting p)
    × (f.status ≡ status_at p f)
    × (f.slot ≡ true)

try_finish_live-Moved : (f : Flags) → Entered live f → Moved live (try_finish_flags f)
try_finish_live-Moved f h = elim (Bool-cases (f.process_exited && (f.out_eof && f.err_eof))) [
  | inl all ↦ (done, finishes, ground arith)
  | inr missing ↦ (live, stay, ground arith)
]

try_finish_shutting-Moved : (f : Flags) → Entered shutting f → Moved shutting (try_finish_flags f)
try_finish_shutting-Moved f h = elim (Bool-cases (f.process_exited && (f.out_eof && f.err_eof))) [
  | inl all ↦ (ended, joins, ground arith)
  | inr missing ↦ (shutting, stay, ground arith)
]

-- A finished process has no drain and no reaping to come, and one before its start has none yet.
pub drain_end-Moved :
    (p : Phase) (s : ProcessStream) (f : Flags)
    → (f.start_called ≡ true) × (eof_of s f ≡ false)
    → At p f
    → Moved p (try_finish_flags (eof_flags s f))
drain_end-Moved live stdout f e h = try_finish_live-Moved (eof_flags stdout f) (ground arith)
drain_end-Moved live stderr f e h = try_finish_live-Moved (eof_flags stderr f) (ground arith)
drain_end-Moved shutting stdout f e h =
    try_finish_shutting-Moved (eof_flags stdout f) (ground arith)
drain_end-Moved shutting stderr f e h =
    try_finish_shutting-Moved (eof_flags stderr f) (ground arith)
drain_end-Moved _ stdout f e h = absurd (ground arith)
drain_end-Moved _ stderr f e h = absurd (ground arith)

pub exit-Moved :
    (p : Phase) (signal : ℕ) (f : Flags)
    → (f.start_called ≡ true) × (f.process_exited ≡ false)
    → At p f
    → Moved p (exit_flags signal f)
exit-Moved live signal f e h = rw e.1 (
    try_finish_live-Moved (record f { process_exited = true; exit_signal = signal }) (ground arith))
exit-Moved shutting signal f e h = rw e.1 (
    try_finish_shutting-Moved (record f { process_exited = true; exit_signal = signal })
      (ground arith))
exit-Moved _ signal f e h = absurd (ground arith)

pub start-Moved :
    (p : Phase) (argv : List Bytes) (has_budget acquired : Bool) (launch : Spawn) (f : Flags)
    → At p f
    → Moved p (start_flags argv has_budget acquired launch f)
start-Moved idle argv true true (launched pid) f h = elim (Bool-cases (has_program argv)) [
  | inl given ↦ (live, launches, ground arith)
  | inr empty ↦ (idle, stay, ground arith)
]
start-Moved idle argv has_budget acquired launch_failed f h = (idle, stay, ground arith)
start-Moved idle argv has_budget acquired (setup_failed pid) f h = (idle, stay, ground arith)
start-Moved idle argv true false (launched pid) f h = (idle, stay, ground arith)
start-Moved idle argv false acquired (launched pid) f h = (idle, stay, ground arith)
start-Moved live argv has_budget acquired launch f h = (live, stay, ground arith)
start-Moved shutting argv has_budget acquired launch f h = (shutting, stay, ground arith)
start-Moved done argv has_budget acquired launch f h = (done, stay, ground arith)
start-Moved ended argv has_budget acquired launch f h = (ended, stay, ground arith)
start-Moved dropped argv has_budget acquired launch f h = (dropped, stay, ground arith)
