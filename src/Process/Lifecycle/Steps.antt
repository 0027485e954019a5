-- ===== src/Process/Lifecycle/Steps.antt =====
-- What the events of the executor do to the flags.
use vacps.Prelude.{ℕ, ℤ, ◌≡◌, refl, ap, ◌∙◌, List, [], Bool, true, false, not, ◌||◌, if◌then◌else◌}
use vacps.Process.Budget.{ProcessBudget, try_acquire_process}
use vacps.Process.State.{
  Bytes, created, starting, running, ProcessStream, stdout, stderr, StartOptions, World,
}
use vacps.Process.Capture.{append_capture, retain, count_produced, mark_truncated}
use vacps.Process.Lifecycle.{is_closed, sigkill, kill_group, reset_slot}
use vacps.Process.Lifecycle.Flags.{
  Flags, flags, if-same, if-both, flags-if, finalize_flags, try_finish_flags, exit_flags,
  close_flags, flags-finalize_close, flags-try_finish, flags-on_process_exit, flags-begin_close,
  flags-reset_slot, flags-kill_group,
}
use vacps.Process.Lifecycle.Control.{
  Spawn, launch_failed, setup_failed, launched, Outcome, Terminated, has_program, forget_child,
  mark_created, fail_spawn, set_running, arm_timeout, spawn, hold_slot, set_budget, start, mark_eof,
  drain_end, reap, mark_timed_out, on_timeout, on_grace, arm_grace, terminate, add_finish_waiter,
  close_round, async_close,
}

abbrev pub fail_flags : Flags → Flags
fail_flags f = record f { start_called = false; slot = false; status = created }

abbrev pub spawn_flags : Spawn → Flags → Flags
spawn_flags launch_failed f = fail_flags f
spawn_flags (setup_failed pid) f = fail_flags f
spawn_flags (launched pid) f = record f { start_called = true; status = running }

abbrev pub start_flags : List Bytes → Bool → Bool → Spawn → Flags → Flags
start_flags argv has_budget acquired launch f =
    if is_closed f.status || f.closing
    then f
    else if f.start_called
    then f
    else if not (has_program argv)
    then f
    else if not has_budget
    then f
    else if acquired
    then spawn_flags launch (record f { slot = true; status = starting })
    else record f { status = created }

abbrev pub eof_flags : ProcessStream → Flags → Flags
eof_flags stdout f = record f { out_eof = true }
eof_flags stderr f = record f { err_eof = true }

abbrev pub timeout_flags : Bool → Flags → Flags
timeout_flags cancelled_wait f =
    if cancelled_wait || f.finished || f.process_exited || is_closed f.status
    then f
    else record f { timed_out = true }

abbrev pub close_round_flags : Flags → Flags
close_round_flags f = if is_closed f.status then f else if f.finished then finalize_flags f else f

flags-fail_spawn : (w : World) → flags (fail_spawn w) ≡ fail_flags (flags w)
unfolding fail_spawn
flags-fail_spawn w =
    let e : flags (mark_created (reset_slot (forget_child (kill_group sigkill w))))
        ≡ record (flags (reset_slot (forget_child (kill_group sigkill w)))) { status = created } =
      unfold flags mark_created in refl in
    let f : flags (forget_child (kill_group sigkill w))
        ≡ record (flags (kill_group sigkill w)) { start_called = false } =
      unfold flags forget_child in refl in
    e ∙ simp (flags-reset_slot, f, flags-kill_group)

flags-spawn :
    (opts : StartOptions) (launch : Spawn) (w : World)
    → flags (spawn opts launch w).0 ≡ spawn_flags launch (flags w)
unfolding spawn
flags-spawn opts launch_failed w = flags-fail_spawn w
flags-spawn opts (setup_failed pid) w =
    flags-fail_spawn (set_running opts pid w) ∙ (unfold flags set_running in refl)
flags-spawn opts (launched pid) w = unfold flags arm_timeout set_running in refl

flags_of-if :
    (b : Bool) (x y : World × Outcome)
    → flags (if b then x else y).0 ≡ (if b then flags x.0 else flags y.0)
flags_of-if true x y = refl
flags_of-if false x y = refl

flags-hold_slot :
    (w : World) → flags (hold_slot w) ≡ record (flags w) { slot = true; status = starting }
unfolding flags hold_slot
flags-hold_slot w = refl

flags-set_budget : (b : ProcessBudget) (w : World) → flags (set_budget b w) ≡ flags w
unfolding flags set_budget
flags-set_budget b w = refl

flags-mark_created : (w : World) → flags (mark_created w) ≡ record (flags w) { status = created }
unfolding flags mark_created
flags-mark_created w = refl

pub flags-start :
    (argv : List Bytes) (opts : StartOptions) (launch : Spawn) (w : World)
    → flags (start argv opts launch w).0
      ≡ start_flags argv w.has_budget (try_acquire_process [] w.budget).1 launch (flags w)
unfolding start
flags-start argv opts launch w =
    simp
      (
        flags_of-if, flags-spawn, flags-hold_slot, flags-reset_slot, flags-set_budget,
        flags-mark_created,
      )
      (unfold flags in refl)

pub flags-drain_end :
    (s : ProcessStream) (w : World)
    → flags (drain_end s w) ≡ try_finish_flags (eof_flags s (flags w))
unfolding drain_end
flags-drain_end stdout w = flags-try_finish (mark_eof stdout w) ∙ (unfold flags mark_eof in refl)
flags-drain_end stderr w = flags-try_finish (mark_eof stderr w) ∙ (unfold flags mark_eof in refl)

pub flags-reap :
    (code : ℤ) (signal : ℕ) (w : World) → flags (reap code signal w) ≡ exit_flags signal (flags w)
unfolding reap
flags-reap code signal w =
    flags-on_process_exit code signal (if w.timed_out then kill_group sigkill w else w)
    ∙ ap (exit_flags signal) (if-same flags w.timed_out _ w (flags-kill_group w sigkill))

pub flags-on_timeout : (e : Bool) (w : World) → flags (on_timeout e w) ≡ timeout_flags e (flags w)
unfolding on_timeout
flags-on_timeout e w = simp (flags-if, flags-kill_group) (unfold flags mark_timed_out in refl)

pub flags-on_grace : (e : Bool) (w : World) → flags (on_grace e w) ≡ flags w
unfolding on_grace
flags-on_grace e w = simp (flags-if, flags-kill_group, if-both)

flags_done-if :
    (b : Bool) (x y : World × Terminated)
    → flags (if b then x else y).0 ≡ (if b then flags x.0 else flags y.0)
flags_done-if true x y = refl
flags_done-if false x y = refl

flags-arm_grace : (w : World) → flags (arm_grace w) ≡ flags w
unfolding flags arm_grace
flags-arm_grace w = refl

pub flags-terminate : (sig : ℕ) (w : World) → flags (terminate sig w).0 ≡ flags w
unfolding terminate
flags-terminate sig w = simp (flags_done-if, flags-arm_grace, flags-kill_group, if-both)

pub flags-close_round :
    (gate : ℕ) (w : World) → flags (close_round gate w) ≡ close_round_flags (flags w)
unfolding close_round
flags-close_round gate w =
    simp (flags-if, flags-finalize_close) (unfold flags add_finish_waiter in refl)

pub flags-async_close :
    (gate : ℕ) (w : World)
    → flags (async_close gate w)
      ≡ (if is_closed (flags w).status then flags w else close_round_flags (close_flags (flags w)))
unfolding async_close
flags-async_close gate w =
    simp (flags-if, flags-close_round, flags-begin_close) (unfold flags in refl)

flags-count_produced :
    (s : ProcessStream) (n : ℕ) (w : World) → flags (count_produced s n w) ≡ flags w
unfolding flags count_produced
flags-count_produced s n w = refl

flags-mark_truncated : (s : ProcessStream) (w : World) → flags (mark_truncated s w) ≡ flags w
unfolding flags mark_truncated
flags-mark_truncated s w = refl

flags-retain :
    (s : ProcessStream) (taken : Bytes) (now : ℕ) (w : World)
    → flags (retain s taken now w) ≡ flags w
unfolding flags retain
flags-retain s taken now w = refl

pub flags-append_capture :
    (s : ProcessStream) (bytes : Bytes) (now : ℕ) (w : World)
    → flags (append_capture s bytes now w) ≡ flags w
unfolding append_capture
flags-append_capture s bytes now w =
    simp (flags-if, flags-count_produced, flags-mark_truncated, flags-retain, if-both)
