-- ===== src/Process/Lifecycle/Refinement.antt =====
-- Every step of a process is a move of the abstract machine, and what follows of its life.
use vacps.Prelude.{◌≡◌, refl, [], Bool, arith, if◌then◌else◌}
use vacps.Process.Budget.{try_acquire_process, ProcessBudget}
use vacps.Process.State.{StartOptions, World, new_process}
use vacps.Process.Lifecycle.{is_closed}
use vacps.Process.Lifecycle.Flags.{Flags, flags, close_flags, flags-begin_close}
use vacps.Process.Lifecycle.Steps.{
  close_round_flags, flags-start, flags-drain_end, flags-reap, flags-on_timeout, flags-on_grace,
  flags-terminate, flags-close_round, flags-async_close, flags-append_capture,
}
use vacps.Process.Lifecycle.Control.{
  Event, starts, reads, read_ends, exits, timeout_fires, grace_fires, terminates, closes,
  close_resumes, disposes, step,
}
use vacps.Process.Lifecycle.Phases.{
  Phase, idle, live, shutting, done, ended, dropped, Move, stay, launches, drops, finishes, shuts,
  joins, closes_done, At, Enabled, Moved, close_flags-Moved, close_round-Moved, timeout-Moved,
  drain_end-Moved, exit-Moved, start-Moved,
}

stays : (p : Phase) (f : Flags) → At p f → Moved p f
stays p f h = (p, stay, h)

-- The first round of `async_close` follows `begin_close` at once.
close_twice-Moved :
    (p : Phase) (f : Flags)
    → At p f
    → Moved p (if is_closed f.status then f else close_round_flags (close_flags f))
close_twice-Moved done f h = (ended, closes_done, ground arith)
close_twice-Moved idle f h = (dropped, drops, ground arith)
close_twice-Moved live f h = (shutting, shuts, ground arith)
close_twice-Moved shutting f h = (shutting, stay, ground arith)
close_twice-Moved ended f h = (ended, stay, ground arith)
close_twice-Moved dropped f h = (dropped, stay, ground arith)

-- Each event that the executor may run takes a process from its phase to itself or along one move.
pub step-Moved :
    (p : Phase) (e : Event) (w : World)
    → At p (flags w)
    → Enabled e (flags w)
    → Moved p (flags (step e w))
unfolding step
step-Moved p (starts argv opts launch) w h g =
    rw flags-start
      (start-Moved p argv w.has_budget (try_acquire_process [] w.budget).1 launch (flags w) h)
step-Moved p (reads s bytes now) w h g = rw flags-append_capture (stays p (flags w) h)
step-Moved p (read_ends s) w h g = rw flags-drain_end (drain_end-Moved p s (flags w) g h)
step-Moved p (exits code signal) w h g = rw flags-reap (exit-Moved p signal (flags w) g h)
step-Moved p (timeout_fires e) w h g = rw flags-on_timeout (timeout-Moved p e (flags w) h)
step-Moved p (grace_fires e) w h g = rw flags-on_grace (stays p (flags w) h)
step-Moved p (terminates sig) w h g = rw flags-terminate (stays p (flags w) h)
step-Moved p (closes gate) w h g = rw flags-async_close (close_twice-Moved p (flags w) h)
step-Moved p (close_resumes gate) w h g = rw flags-close_round (close_round-Moved p (flags w) h)
step-Moved p disposes w h g = rw flags-begin_close (close_flags-Moved p (flags w) h)

-- The worlds that the executor can reach.
pub data Reach (w : World) : World → Type 0 where
  here : Reach w w
  next : {v : World} (e : Event) → Reach w v → Enabled e (flags v) → Reach w (step e v)

-- `Later p q`: q is p, or comes after it by moves.
pub data Later : Phase → Phase → Type 0 where
  same : {p : Phase} → Later p p
  more : {p q r : Phase} → Later p q → Move q r → Later p r

-- Along any run the phase only moves on.
pub Reach-Later :
    (p : Phase) (w v : World)
    → At p (flags w)
    → Reach w v
    → (q : Phase) × Later p q × At q (flags v)
Reach-Later p w _ h here = (p, same, h)
Reach-Later p w _ h (next {v} e r g) =
    let (q, l, a) = Reach-Later p w v h r in
    let (q', m, a') = step-Moved q e v a g in (q', more l m, a')

new_process-At :
    (has_budget : Bool) (opts : StartOptions) (b : ProcessBudget)
    → At idle (flags (record { st = new_process has_budget opts; budget = b; effects = [] }))
unfolding flags new_process
new_process-At has_budget opts b = ground arith

-- A new process, whatever the executor runs and in whatever order, is always in a phase.
pub Reach-At :
    (has_budget : Bool) (opts : StartOptions) (b : ProcessBudget) (v : World)
    → Reach (record { st = new_process has_budget opts; budget = b; effects = [] }) v
    → (q : Phase) × Later idle q × At q (flags v)
Reach-At has_budget opts b v =
    Reach-Later idle (record { st = new_process has_budget opts; budget = b; effects = [] }) v
      (new_process-At has_budget opts b)

pub Later-ended : {p q : Phase} → p ≡ ended → Later p q → q ≡ ended
Later-ended e same = e
Later-ended e (more l stay) = Later-ended e l
Later-ended e (more l launches) = cc (Later-ended e l)
Later-ended e (more l drops) = cc (Later-ended e l)
Later-ended e (more l finishes) = cc (Later-ended e l)
Later-ended e (more l shuts) = cc (Later-ended e l)
Later-ended e (more l joins) = refl
Later-ended e (more l closes_done) = refl
