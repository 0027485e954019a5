-- ===== src/Process/Lifecycle/Budgeted.antt =====
-- A process takes from the shared budget exactly what it holds, and gives all of it back.
use vacps.Prelude.{
  ℕ, ℤ, ◌+◌, ◌≤◌, ◌<◌, ◌≡◌, refl, sym, subst, ◌∙◌, [], Bool, true, false, not, ◌||◌, arith, ltb,
  ◌==◌, if◌then◌else◌, length, length-append, List,
}
use vacps.Process.Budget.{
  ProcessBudget, u64_mod, global_buffer_room, add_buffered, release_process, try_acquire_process,
  sub_buffered,
}
use vacps.Process.State.{Bytes, ProcessStream, stdout, stderr, StartOptions, World, new_process}
use vacps.Process.Capture.{
  append_capture, capture_room, clear_buffers, notify_read_waiters, retain, count_produced,
  mark_truncated,
}
use vacps.Process.Reading.Capturing.{kept_of, length-kept_of, capture_room-le}
use vacps.Process.Lifecycle.{
  is_closed, sigkill, kill_group, reset_slot, cancel_timeout_timer, cancel_io,
  notify_finish_waiters, cancel_grace_timer, mark_closed, finalize_close, mark_finished,
  reset_timers, finish_now, try_finish, on_process_exit, mark_closing, begin_close,
}
use vacps.Process.Lifecycle.Account.{
  account, IsCharged, no_charge, account-cancel_io, account-notify_all, account-mark_finished,
  account-mark_exited, account-kill_group, account-mark_closed, account-drop_handles,
  account-mark_closing, account-forget_child, account-mark_created, account-set_running,
  account-arm_timeout, account-mark_timed_out, account-arm_grace, account-add_finish_waiter,
  account-mark_eof,
}
use vacps.Process.Lifecycle.Refinement.{Reach, here, next}
use vacps.Process.Lifecycle.Control.{
  Event, starts, reads, read_ends, exits, timeout_fires, grace_fires, terminates, closes,
  close_resumes, disposes, step, Spawn, launch_failed, setup_failed, launched, start, spawn,
  fail_spawn, hold_slot, set_budget, drain_end, reap, on_timeout, on_grace, terminate, close_round,
  async_close, has_program, mark_created,
}

first-if {ℓ} :
    {A : Type ℓ} (c : Bool) (x y : World × A) → (if c then x else y).0 ≡ (if c then x.0 else y.0)
first-if true x y = refl
first-if false x y = refl

module _ (r b : ℕ) where
  abbrev Charged : World → Type 0
  Charged w = IsCharged r b (account w)

  by_account : (v w : World) → account v ≡ account w → Charged w → Charged v
  by_account v w e h = subst (IsCharged r b) (sym e) h

  reset_slot-Charged : (w : World) → Charged w → Charged (reset_slot w)
  unfolding reset_slot account release_process
  reset_slot-Charged w h = ground arith

  clear_buffers-Charged : (w : World) → Charged w → Charged (clear_buffers w)
  unfolding clear_buffers account sub_buffered
  clear_buffers-Charged w h = ground arith

  keep_if : (c : Bool) (v w : World) → Charged v → Charged w → Charged (if c then v else w)
  keep_if true v w h k = h
  keep_if false v w h k = k

  keep_if_cases :
      (c : Bool) (v w : World)
      → (c ≡ true → Charged v)
      → (c ≡ false → Charged w)
      → Charged (if c then v else w)
  keep_if_cases true v w h k = h refl
  keep_if_cases false v w h k = k refl

  finalize_close-Charged : (w : World) → Charged w → Charged (finalize_close w)
  unfolding finalize_close
  finalize_close-Charged w h = keep_if (is_closed w.status) w _ h (
      by_account _ _ (account-notify_all _) (
        reset_slot-Charged _ (
          by_account _ _ (account-drop_handles _)
            (clear_buffers-Charged _ (by_account (mark_closed w) w (account-mark_closed w) h)))))

  finish_now-Charged : (w : World) → Charged w → Charged (finish_now w)
  unfolding finish_now
  finish_now-Charged w h =
      let woken : Charged (
          notify_finish_waiters (
            notify_read_waiters (
              reset_slot
                (reset_timers (cancel_grace_timer (cancel_timeout_timer (mark_finished w))))))) =
        by_account _ _ (simp no_charge)
          (reset_slot-Charged _ (by_account _ _ (account-mark_finished w) h)) in
      keep_if w.closing _ _ (finalize_close-Charged _ woken) woken

  try_finish-Charged : (w : World) → Charged w → Charged (try_finish w)
  unfolding try_finish
  try_finish-Charged w h = keep_if w.finished w _ h (keep_if _ w _ h (finish_now-Charged w h))

  on_process_exit-Charged :
      (code : ℤ) (signal : ℕ) (w : World) → Charged w → Charged (on_process_exit code signal w)
  unfolding on_process_exit
  on_process_exit-Charged code signal w h =
      keep_if w.process_exited w _ h
        (try_finish-Charged _ (by_account _ _ (account-mark_exited code signal w) h))

  begin_close-Charged : (w : World) → Charged w → Charged (begin_close w)
  unfolding begin_close
  begin_close-Charged w h =
      let shut : Charged (cancel_io (kill_group sigkill (mark_closing w))) =
        by_account _ _ (account-cancel_io _ ∙ account-kill_group _ sigkill ∙ account-mark_closing w)
          h in
      keep_if (is_closed w.status) w _ h (
        keep_if (not w.start_called) _ _
          (by_account _ _ (account-notify_all _ ∙ (account-mark_closed w)) h)
          (keep_if w.finished _ _ (finalize_close-Charged _ shut) shut))

  retain-Charged :
      (s : ProcessStream) (taken : Bytes) (now : ℕ) (w : World)
      → length taken ≤ global_buffer_room w.budget
      → Charged w
      → Charged (retain s taken now w)
  unfolding retain account global_buffer_room add_buffered
  retain-Charged stdout taken now w fits h = ground (arith, length-append w.stdout_acc taken)
  retain-Charged stderr taken now w fits h = ground (arith, length-append w.stderr_acc taken)

  count_produced-Charged :
      (s : ProcessStream) (n : ℕ) (w : World) → Charged w → Charged (count_produced s n w)
  unfolding count_produced account
  count_produced-Charged stdout n w h = h
  count_produced-Charged stderr n w h = h

  mark_truncated-Charged :
      (s : ProcessStream) (w : World) → Charged w → Charged (mark_truncated s w)
  unfolding mark_truncated account
  mark_truncated-Charged stdout w h = h
  mark_truncated-Charged stderr w h = h

  has_budget-Charged : (w : World) → Charged w → w.has_budget ≡ true
  unfolding account
  has_budget-Charged w h = h.budgeted

  budget-count_produced :
      (s : ProcessStream) (n : ℕ) (w : World) → (count_produced s n w).budget ≡ w.budget
  unfolding count_produced
  budget-count_produced s n w = refl

  append_capture-Charged :
      (s : ProcessStream) (bytes : Bytes) (now : ℕ) (w : World)
      → Charged w
      → Charged (append_capture s bytes now w)
  unfolding append_capture
  append_capture-Charged s bytes now w h =
      let counted : Charged (count_produced s (length bytes) w) =
        count_produced-Charged s (length bytes) w h in
      let fits : length (kept_of s bytes w)
          ≤ global_buffer_room (count_produced s (length bytes) w).budget =
        rw (budget-count_produced s (length bytes) w) (
          omega (
            arith,
            length-kept_of s bytes w,
            capture_room-le s (length bytes) w (has_budget-Charged w h),
          )) in
      let filled : Charged (
          if ltb 0 (capture_room s (length bytes) w)
          then retain s (kept_of s bytes w) now (count_produced s (length bytes) w)
          else count_produced s (length bytes) w) =
        keep_if _ _ _ (retain-Charged s (kept_of s bytes w) now _ fits counted) counted in
      keep_if _ _ _ (mark_truncated-Charged s _ filled) filled

  kill_group-Charged : (sig : ℕ) (w : World) → Charged w → Charged (kill_group sig w)
  kill_group-Charged sig w h = by_account _ _ (account-kill_group w sig) h

  fail_spawn-Charged : (w : World) → Charged w → Charged (fail_spawn w)
  unfolding fail_spawn
  fail_spawn-Charged w h = by_account _ _ (account-mark_created _) (
      reset_slot-Charged _
        (by_account _ _ (account-forget_child _) (kill_group-Charged sigkill w h)))

  spawn-Charged :
      (opts : StartOptions) (launch : Spawn) (w : World)
      → Charged w
      → Charged (spawn opts launch w).0
  unfolding spawn
  spawn-Charged opts launch_failed w h = fail_spawn-Charged w h
  spawn-Charged opts (setup_failed pid) w h =
      fail_spawn-Charged _ (by_account _ _ (account-set_running opts pid w) h)
  spawn-Charged opts (launched pid) w h =
      by_account _ _ (account-arm_timeout opts _)
        (by_account _ _ (account-set_running opts pid w) h)

-- A slot is counted before it is held.
acquire-Charged :
    (r b : ℕ) (w : World)
    → (try_acquire_process [] w.budget).1 ≡ true
    → IsCharged r b (account w)
    → IsCharged (r + 1) b (account (set_budget (try_acquire_process [] w.budget).0 w))
unfolding try_acquire_process set_budget account
acquire-Charged r b w e h = ground arith

refused-Charged :
    (r b : ℕ) (w : World)
    → (try_acquire_process [] w.budget).1 ≡ false
    → IsCharged r b (account w)
    → IsCharged r b (account (mark_created (set_budget (try_acquire_process [] w.budget).0 w)))
unfolding try_acquire_process set_budget mark_created account
refused-Charged r b w e h = ground arith

slot-reset_slot : (w : World) → (reset_slot w).slot ≡ false
unfolding reset_slot
slot-reset_slot w = ground arith

hold_slot-Charged :
    (r b : ℕ) (w : World)
    → w.slot ≡ false
    → IsCharged (r + 1) b (account w)
    → IsCharged r b (account (hold_slot w))
unfolding hold_slot account
hold_slot-Charged r b w e h = ground arith

module _ (r b : ℕ) where
  start-Charged :
      (argv : List Bytes) (opts : StartOptions) (launch : Spawn) (w : World)
      → Charged r b w
      → Charged r b (start argv opts launch w).0
  unfolding start
  start-Charged argv opts launch w h = simp first-if (
      keep_if r b (is_closed w.status || w.closing) _ _ h (
        keep_if r b w.start_called _ _ h (
          keep_if r b (not (has_program argv)) _ _ h (
            keep_if r b (not w.has_budget) _ _ h (
              keep_if_cases r b (try_acquire_process [] w.budget).1 _ _
                (λ got. spawn-Charged r b opts launch _ (
                  hold_slot-Charged r b _ (slot-reset_slot _)
                    (reset_slot-Charged (r + 1) b _ (acquire-Charged r b w got h))))
                (λ full. refused-Charged r b w full h))))))

  terminate-Charged : (sig : ℕ) (w : World) → Charged r b w → Charged r b (terminate sig w).0
  unfolding terminate
  terminate-Charged sig w h =
      let killed : Charged r b (kill_group sig w) = kill_group-Charged r b sig w h in
      simp first-if (
        keep_if r b (is_closed w.status || w.closing) _ _ h (
          keep_if r b (not w.start_called) _ _ h (
            keep_if r b (w.finished || w.process_exited) _ _ h (
              keep_if r b (sig == sigkill) _ _ killed
                (by_account r b _ _ (account-arm_grace _) killed)))))

  close_round-Charged : (gate : ℕ) (w : World) → Charged r b w → Charged r b (close_round gate w)
  unfolding close_round
  close_round-Charged gate w h = keep_if r b (is_closed w.status) w _ h (
      keep_if r b w.finished _ _ (finalize_close-Charged r b w h)
        (by_account r b _ _ (account-add_finish_waiter gate w) h))

  -- Every event keeps the account: the shared counters are what the others have, and one running
  -- process while the slot is held, and the bytes that the two buffers hold.
  step-Charged : (e : Event) (w : World) → Charged r b w → Charged r b (step e w)
  unfolding step drain_end reap on_timeout on_grace async_close
  step-Charged (starts argv opts launch) w h = start-Charged argv opts launch w h
  step-Charged (reads s bytes now) w h = append_capture-Charged r b s bytes now w h
  step-Charged (read_ends s) w h =
      try_finish-Charged r b _ (by_account r b _ _ (account-mark_eof s w) h)
  step-Charged (exits code signal) w h =
      on_process_exit-Charged r b code signal _
        (keep_if r b w.timed_out _ w (kill_group-Charged r b sigkill w h) h)
  step-Charged (timeout_fires e) w h =
      keep_if r b _ w _ h
        (kill_group-Charged r b sigkill _ (by_account r b _ _ (account-mark_timed_out w) h))
  step-Charged (grace_fires e) w h = keep_if r b _ w _ h (kill_group-Charged r b sigkill w h)
  step-Charged (terminates sig) w h = terminate-Charged sig w h
  step-Charged (closes gate) w h =
      keep_if r b (is_closed w.status) w _ h
        (close_round-Charged gate _ (begin_close-Charged r b w h))
  step-Charged (close_resumes gate) w h = close_round-Charged gate w h
  step-Charged disposes w h = begin_close-Charged r b w h

-- A process that is made on a budget within its limits, whatever the executor runs and in whatever
-- order: at every moment the shared counters are what they were, plus one running process exactly
-- while the slot is held, plus exactly the bytes that are kept, and both are within the limits.
pub Reach-Charged :
    (opts : StartOptions) (b : ProcessBudget) (v : World)
    → b.running ≤ b.max_running
    → b.buffered ≤ b.max_total_buffer_bytes
    → b.max_running < u64_mod
    → b.max_total_buffer_bytes < u64_mod
    → Reach (record { st = new_process true opts; budget = b; effects = [] }) v
    → IsCharged b.running b.buffered (account v)
Reach-Charged opts b _ h k l m here =
    unfold account new_process in
    record {
      budgeted = refl;
      counted = omega arith;
      retains = omega arith;
      in_running = h;
      in_buffer = k;
      limits_fit = (l, m);
    }
Reach-Charged opts b _ h k l m (next {v} e p g) =
    step-Charged b.running b.buffered e v (Reach-Charged opts b v h k l m p)
