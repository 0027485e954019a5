-- ===== src/Process/Lifecycle/Account.antt =====
-- What a process owes the shared budget, and the methods that do not touch it.
use vacps.Prelude.{ℕ, ℤ, ◌+◌, ◌≤◌, ◌<◌, ◌≡◌, refl, Bool, true, ltb, if◌then◌else◌, length, ◌∙◌}
use vacps.Process.Budget.{ProcessBudget, u64_mod}
use vacps.Process.State.{ProcessStream, stdout, stderr, StartOptions, World}
use vacps.Process.Capture.{notify_read_waiters}
use vacps.Process.Lifecycle.{
  has_pipe, notify_finish_waiters, notify_write_waiters, kill_group, cancel_timeout_timer,
  cancel_grace_timer, close_in_pipe, cancel_out_pipe, cancel_err_pipe, clear_stdin_open, cancel_io,
  notify_all, mark_closed, drop_handles, mark_finished, reset_timers, mark_exited,
  reset_timeout_timer, mark_closing,
}
use vacps.Process.Lifecycle.Control.{
  forget_child, mark_created, set_running, arm_timeout, mark_eof, mark_timed_out, arm_grace,
  add_finish_waiter,
}
use vacps.Process.Lifecycle.Flags.{if-same}

pub record Account : Type 0 where
  pub has_budget : Bool
  pub slot : Bool
  pub retained : ℕ
  pub budget : ProcessBudget

unfoldable pub account : World → Account
account w = record {
  has_budget = w.has_budget;
  slot = w.slot;
  retained = length w.stdout_acc + length w.stderr_acc;
  budget = w.budget;
}

-- Without this process, `running` would be `r` and `buffered` would be `b`.
pub record IsCharged (r b : ℕ) (a : Account) : Type 0 where
  pub budgeted : a.has_budget ≡ true
  pub counted : a.budget.running ≡ r + (if a.slot then 1 else 0)
  pub retains : a.budget.buffered ≡ b + a.retained
  pub in_running : a.budget.running ≤ a.budget.max_running
  pub in_buffer : a.budget.buffered ≤ a.budget.max_total_buffer_bytes
  pub limits_fit : (a.budget.max_running < u64_mod) × (a.budget.max_total_buffer_bytes < u64_mod)

module _ (w : World) where
  pub account-notify_finish_waiters : account (notify_finish_waiters w) ≡ account w
  unfolding account notify_finish_waiters
  account-notify_finish_waiters = refl

  pub account-notify_write_waiters : account (notify_write_waiters w) ≡ account w
  unfolding account notify_write_waiters
  account-notify_write_waiters = refl

  pub account-notify_read_waiters : account (notify_read_waiters w) ≡ account w
  unfolding account notify_read_waiters
  account-notify_read_waiters = refl

  pub account-kill_group : (sig : ℕ) → account (kill_group sig w) ≡ account w
  unfolding kill_group
  account-kill_group sig = if-same account (ltb 0 w.pgid) _ w (unfold account in refl)

  pub account-cancel_timeout_timer : account (cancel_timeout_timer w) ≡ account w
  unfolding cancel_timeout_timer
  account-cancel_timeout_timer = if-same account w.timeout_timer _ w (unfold account in refl)

  pub account-cancel_grace_timer : account (cancel_grace_timer w) ≡ account w
  unfolding cancel_grace_timer
  account-cancel_grace_timer = if-same account w.grace_timer _ w (unfold account in refl)

  pub account-close_in_pipe : account (close_in_pipe w) ≡ account w
  unfolding close_in_pipe
  account-close_in_pipe = if-same account (has_pipe w.in_pipe) _ w (unfold account in refl)

  pub account-cancel_out_pipe : account (cancel_out_pipe w) ≡ account w
  unfolding cancel_out_pipe
  account-cancel_out_pipe = if-same account (has_pipe w.out_pipe) _ w (unfold account in refl)

  pub account-cancel_err_pipe : account (cancel_err_pipe w) ≡ account w
  unfolding cancel_err_pipe
  account-cancel_err_pipe = if-same account (has_pipe w.err_pipe) _ w (unfold account in refl)

pub ruleset no_charge = (
  account-notify_finish_waiters, account-notify_write_waiters, account-notify_read_waiters,
  account-kill_group, account-cancel_timeout_timer, account-cancel_grace_timer,
  account-close_in_pipe, account-cancel_out_pipe, account-cancel_err_pipe,
)

account-clear_stdin_open : (w : World) → account (clear_stdin_open w) ≡ account w
unfolding account clear_stdin_open
account-clear_stdin_open w = refl

pub account-cancel_io : (w : World) → account (cancel_io w) ≡ account w
unfolding cancel_io
account-cancel_io w = simp (no_charge, account-clear_stdin_open)

pub account-notify_all : (w : World) → account (notify_all w) ≡ account w
unfolding notify_all
account-notify_all w = simp no_charge

-- Of a finishing process, all but the slot.
pub account-mark_finished :
    (w : World)
    → account (reset_timers (cancel_grace_timer (cancel_timeout_timer (mark_finished w))))
      ≡ account w
account-mark_finished w =
    let timers : account
          (reset_timers (cancel_grace_timer (cancel_timeout_timer (mark_finished w))))
        ≡ account (cancel_grace_timer (cancel_timeout_timer (mark_finished w))) =
      unfold account reset_timers in refl in
    timers ∙ simp no_charge (unfold account mark_finished in refl)

pub account-mark_exited :
    (code : ℤ) (signal : ℕ) (w : World)
    → account (reset_timeout_timer (cancel_timeout_timer (mark_exited code signal w))) ≡ account w
account-mark_exited code signal w =
    let timer : account (reset_timeout_timer (cancel_timeout_timer (mark_exited code signal w)))
        ≡ account (cancel_timeout_timer (mark_exited code signal w)) =
      unfold account reset_timeout_timer in refl in
    timer ∙ simp no_charge (unfold account mark_exited in refl)

pub account-mark_closed : (w : World) → account (mark_closed w) ≡ account w
unfolding account mark_closed
account-mark_closed w = refl

pub account-drop_handles : (w : World) → account (drop_handles w) ≡ account w
unfolding account drop_handles
account-drop_handles w = refl

pub account-mark_closing : (w : World) → account (mark_closing w) ≡ account w
unfolding account mark_closing
account-mark_closing w = refl

pub account-forget_child : (w : World) → account (forget_child w) ≡ account w
unfolding account forget_child
account-forget_child w = refl

pub account-mark_created : (w : World) → account (mark_created w) ≡ account w
unfolding account mark_created
account-mark_created w = refl

pub account-set_running :
    (opts : StartOptions) (pid : ℕ) (w : World) → account (set_running opts pid w) ≡ account w
unfolding account set_running
account-set_running opts pid w = refl

pub account-arm_timeout :
    (opts : StartOptions) (w : World) → account (arm_timeout opts w) ≡ account w
unfolding account arm_timeout
account-arm_timeout opts w = refl

pub account-mark_timed_out : (w : World) → account (mark_timed_out w) ≡ account w
unfolding account mark_timed_out
account-mark_timed_out w = refl

pub account-arm_grace : (w : World) → account (arm_grace w) ≡ account w
unfolding account arm_grace
account-arm_grace w = refl

pub account-add_finish_waiter :
    (gate : ℕ) (w : World) → account (add_finish_waiter gate w) ≡ account w
unfolding account add_finish_waiter
account-add_finish_waiter gate w = refl

pub account-mark_eof : (s : ProcessStream) (w : World) → account (mark_eof s w) ≡ account w
unfolding account mark_eof
account-mark_eof stdout w = refl
account-mark_eof stderr w = refl
