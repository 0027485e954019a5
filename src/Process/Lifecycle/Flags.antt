-- ===== src/Process/Lifecycle/Flags.antt =====
-- The part of the world that decides the phase of a process, and what each method does to it.
use vacps.Prelude.{
  ℕ, ℤ, ◌≡◌, refl, Bool, true, false, not, ◌||◌, ltb, if◌then◌else◌, Bool-cases, inl, inr,
}
use vacps.Process.State.{ProcessStatus, closing_status, closed, World}
use vacps.Process.Capture.{notify_read_waiters, clear_buffers}
use vacps.Process.Lifecycle.{
  is_closed, has_pipe, notify_finish_waiters, notify_write_waiters, kill_group, reset_slot,
  cancel_timeout_timer, cancel_grace_timer, close_in_pipe, cancel_out_pipe, cancel_err_pipe,
  clear_stdin_open, cancel_io, notify_all, mark_closed, drop_handles, finalize_close,
  terminal_status, mark_finished, reset_timers, finish_now, try_finish, mark_exited,
  reset_timeout_timer, on_process_exit, mark_closing, begin_close,
}

pub record Flags : Type 0 where
  pub start_called : Bool
  pub finished : Bool
  pub process_exited : Bool
  pub out_eof : Bool
  pub err_eof : Bool
  pub closing : Bool
  pub slot : Bool
  pub timed_out : Bool
  pub cancelled : Bool
  pub exit_signal : ℕ
  pub status : ProcessStatus

unfoldable pub flags : World → Flags
flags w = record {
  start_called = w.start_called;
  finished = w.finished;
  process_exited = w.process_exited;
  out_eof = w.out_eof;
  err_eof = w.err_eof;
  closing = w.closing;
  slot = w.slot;
  timed_out = w.timed_out;
  cancelled = w.cancelled;
  exit_signal = w.exit_signal;
  status = w.status;
}

-- A branch of which neither side changes what `f` reads.
pub if-same {ℓ κ} :
    {A : Type ℓ} {B : Type κ} (f : A → B) (b : Bool) (x y : A)
    → f x ≡ f y
    → f (if b then x else y) ≡ f y
if-same f true x y h = h
if-same f false x y h = refl

pub if-map {ℓ κ} :
    {A : Type ℓ} {B : Type κ} (f : A → B) (b : Bool) (x y : A)
    → f (if b then x else y) ≡ (if b then f x else f y)
if-map f true x y = refl
if-map f false x y = refl

pub if-both {ℓ} : {A : Type ℓ} (b : Bool) (x : A) → (if b then x else x) ≡ x
if-both true x = refl
if-both false x = refl

module _ (w : World) where
  pub flags-notify_finish_waiters : flags (notify_finish_waiters w) ≡ flags w
  unfolding flags notify_finish_waiters
  flags-notify_finish_waiters = refl

  pub flags-notify_write_waiters : flags (notify_write_waiters w) ≡ flags w
  unfolding flags notify_write_waiters
  flags-notify_write_waiters = refl

  pub flags-notify_read_waiters : flags (notify_read_waiters w) ≡ flags w
  unfolding flags notify_read_waiters
  flags-notify_read_waiters = refl

  pub flags-kill_group : (sig : ℕ) → flags (kill_group sig w) ≡ flags w
  unfolding kill_group
  flags-kill_group sig = if-same flags (ltb 0 w.pgid) _ w (unfold flags in refl)

  pub flags-cancel_timeout_timer : flags (cancel_timeout_timer w) ≡ flags w
  unfolding cancel_timeout_timer
  flags-cancel_timeout_timer = if-same flags w.timeout_timer _ w (unfold flags in refl)

  pub flags-cancel_grace_timer : flags (cancel_grace_timer w) ≡ flags w
  unfolding cancel_grace_timer
  flags-cancel_grace_timer = if-same flags w.grace_timer _ w (unfold flags in refl)

  pub flags-close_in_pipe : flags (close_in_pipe w) ≡ flags w
  unfolding close_in_pipe
  flags-close_in_pipe = if-same flags (has_pipe w.in_pipe) _ w (unfold flags in refl)

  pub flags-cancel_out_pipe : flags (cancel_out_pipe w) ≡ flags w
  unfolding cancel_out_pipe
  flags-cancel_out_pipe = if-same flags (has_pipe w.out_pipe) _ w (unfold flags in refl)

  pub flags-cancel_err_pipe : flags (cancel_err_pipe w) ≡ flags w
  unfolding cancel_err_pipe
  flags-cancel_err_pipe = if-same flags (has_pipe w.err_pipe) _ w (unfold flags in refl)

  pub flags-clear_stdin_open : flags (clear_stdin_open w) ≡ flags w
  unfolding flags clear_stdin_open
  flags-clear_stdin_open = refl

  pub flags-drop_handles : flags (drop_handles w) ≡ flags w
  unfolding flags drop_handles
  flags-drop_handles = refl

  pub flags-clear_buffers : flags (clear_buffers w) ≡ flags w
  unfolding flags clear_buffers
  flags-clear_buffers = refl

  pub flags-reset_timers : flags (reset_timers w) ≡ flags w
  unfolding flags reset_timers
  flags-reset_timers = refl

  pub flags-reset_timeout_timer : flags (reset_timeout_timer w) ≡ flags w
  unfolding flags reset_timeout_timer
  flags-reset_timeout_timer = refl

pub ruleset neutral = (
  flags-notify_finish_waiters, flags-notify_write_waiters, flags-notify_read_waiters,
  flags-kill_group, flags-cancel_timeout_timer, flags-cancel_grace_timer, flags-close_in_pipe,
  flags-cancel_out_pipe, flags-cancel_err_pipe, flags-clear_stdin_open, flags-drop_handles,
  flags-clear_buffers, flags-reset_timers, flags-reset_timeout_timer,
)

pub flags-cancel_io : (w : World) → flags (cancel_io w) ≡ flags w
unfolding cancel_io
flags-cancel_io w = simp neutral

pub flags-notify_all : (w : World) → flags (notify_all w) ≡ flags w
unfolding notify_all
flags-notify_all w = simp neutral

pub flags-reset_slot : (w : World) → flags (reset_slot w) ≡ record (flags w) { slot = false }
unfolding reset_slot
flags-reset_slot w = elim (Bool-cases w.slot) [
  | inl e ↦ unfold flags in simp e
  | inr e ↦ unfold flags in simp e
]

-- What each method does to the flags.
abbrev pub finalize_flags : Flags → Flags
finalize_flags f =
    if is_closed f.status then f else record f { status = closed; closing = false; slot = false }

abbrev pub finish_flags : Flags → Flags
finish_flags f =
    let g = record f {
      finished = true;
      slot = false;
      status =
          if f.closing then f.status else terminal_status f.timed_out f.cancelled f.exit_signal;
    } in
    if f.closing then finalize_flags g else g

abbrev pub try_finish_flags : Flags → Flags
try_finish_flags f =
    if f.finished
    then f
    else if not f.process_exited || (not f.out_eof || not f.err_eof)
    then f
    else finish_flags f

abbrev pub exit_flags : ℕ → Flags → Flags
exit_flags signal f =
    if f.process_exited
    then f
    else try_finish_flags (record f { process_exited = true; exit_signal = signal })

abbrev pub close_flags : Flags → Flags
close_flags f =
    let g = record f { closing = true; status = closing_status; cancelled = true } in
    if is_closed f.status
    then f
    else if not f.start_called
    then record f { status = closed; closing = false }
    else if f.finished
    then finalize_flags g
    else g

pub flags-if :
    (b : Bool) (x y : World) → flags (if b then x else y) ≡ (if b then flags x else flags y)
flags-if = if-map flags

pub flags-mark_closed :
    (w : World) → flags (mark_closed w) ≡ record (flags w) { status = closed; closing = false }
unfolding flags mark_closed
flags-mark_closed w = refl

pub flags-mark_closing :
    (w : World)
    → flags (mark_closing w)
      ≡ record (flags w) { closing = true; status = closing_status; cancelled = true }
unfolding flags mark_closing
flags-mark_closing w = refl

pub ruleset method_flags = (
  flags-if, flags-notify_all, flags-reset_slot, flags-cancel_io, flags-mark_closed,
  flags-mark_closing, neutral,
)

pub flags-finalize_close : (w : World) → flags (finalize_close w) ≡ finalize_flags (flags w)
unfolding finalize_close
flags-finalize_close w = simp method_flags (unfold flags in refl)

pub flags-finish_now : (w : World) → flags (finish_now w) ≡ finish_flags (flags w)
unfolding finish_now
flags-finish_now w = simp (flags-finalize_close, method_flags) (unfold flags mark_finished in refl)

pub flags-try_finish : (w : World) → flags (try_finish w) ≡ try_finish_flags (flags w)
unfolding try_finish
flags-try_finish w = simp (flags-finish_now, method_flags) (unfold flags in refl)

pub flags-on_process_exit :
    (code : ℤ) (signal : ℕ) (w : World)
    → flags (on_process_exit code signal w) ≡ exit_flags signal (flags w)
unfolding on_process_exit
flags-on_process_exit code signal w =
    simp (flags-try_finish, method_flags) (unfold flags mark_exited in refl)

pub flags-begin_close : (w : World) → flags (begin_close w) ≡ close_flags (flags w)
unfolding begin_close
flags-begin_close w = simp (flags-finalize_close, method_flags) (unfold flags in refl)
