-- ===== src/Process/Lifecycle/Closing.antt =====
-- Closing ends: a process that is shut down, or left to itself, ends when its child was reaped and
-- its two pipes are drained, and not before.
use vacps.Prelude.{
  ℕ, suc, ◌+◌, ◌≡◌, ◌≢◌, ◌⊎◌, inl, inr, pos, true, arith, if◌then◌else◌, Bool-cases,
}
use vacps.Process.State.{stdout, stderr, World}
use vacps.Process.Lifecycle.{is_closed}
use vacps.Process.Lifecycle.Flags.{Flags, flags, try_finish_flags, close_flags}
use vacps.Process.Lifecycle.Steps.{
  close_round_flags, flags-drain_end, flags-reap, flags-async_close,
}
use vacps.Process.Lifecycle.Control.{
  Event, starts, reads, read_ends, exits, timeout_fires, grace_fires, terminates, closes,
  close_resumes, disposes, step,
}
use vacps.Process.Lifecycle.Phases.{Phase, live, shutting, ended, Move, stay, joins, At, Enabled}
use vacps.Process.Lifecycle.Refinement.{step-Moved}

-- What is left for a started process to end: the reaping and the two drains.
abbrev pub pending : Flags → ℕ
pending f =
    (if f.process_exited then 0 else 1)
    + (if f.out_eof then 0 else 1)
    + (if f.err_eof then 0 else 1)

abbrev pub IsCompletion : Event → Type 0
IsCompletion (read_ends s) = Unit
IsCompletion (exits code signal) = Unit
IsCompletion _ = ⊥

pending-try_finish : (f : Flags) → pending (try_finish_flags f) ≡ pending f
pending-try_finish f = ground arith

-- Each completion that the executor has to run is one less to come.
pub pending-step :
    (e : Event) (w : World)
    → IsCompletion e
    → Enabled e (flags w)
    → pending (flags w) ≡ suc (pending (flags (step e w)))
unfolding step
pending-step (read_ends stdout) w c g = rw (flags-drain_end, pending-try_finish) (ground arith)
pending-step (read_ends stderr) w c g = rw (flags-drain_end, pending-try_finish) (ground arith)
pending-step (exits code signal) w c g = rw (flags-reap, g.1, pending-try_finish) (ground arith)
pending-step (starts argv opts launch) w c g = absurd c
pending-step (reads s bytes now) w c g = absurd c
pending-step (timeout_fires e) w c g = absurd c
pending-step (grace_fires e) w c g = absurd c
pending-step (terminates sig) w c g = absurd c
pending-step (closes gate) w c g = absurd c
pending-step (close_resumes gate) w c g = absurd c
pending-step disposes w c g = absurd c

-- The completions of a run, one after the other.
pub data Completes (w : World) : World → Type 0 where
  none_left : Completes w w
  one :
      {v : World} (e : Event)
      → Completes w v
      → IsCompletion e
      → Enabled e (flags v)
      → Completes w (step e v)

-- Where a completion is still to come, the executor has one.
IsCompletion-Enabled :
    (f : Flags) → f.start_called ≡ true → pending f ≢ 0 → (e : Event) × IsCompletion e × Enabled e f
IsCompletion-Enabled f s h = elim (Bool-cases f.process_exited) [
  | inr alive ↦ (exits (pos 0) 0, tt, (s, alive))
  | inl gone ↦ elim (Bool-cases f.out_eof) [
    | inr open_out ↦ (read_ends stdout, tt, (s, open_out))
    | inl no_out ↦ elim (Bool-cases f.err_eof) [
      | inr open_err ↦ (read_ends stderr, tt, (s, open_err))
      | inl no_err ↦ absurd (h (ground arith))
    ]
  ]
]

-- Shutting down goes on until the end.
abbrev IsEnding : Flags → Type 0
IsEnding f = At shutting f ⊎ At ended f

shutting-Move : (q : Phase) (f : Flags) → Move shutting q → At q f → IsEnding f
shutting-Move _ f stay h = inl h
shutting-Move _ f joins h = inr h

ended-Move : (q : Phase) (f : Flags) → Move ended q → At q f → IsEnding f
ended-Move _ f stay h = inr h

IsEnding-step :
    (e : Event) (v : World) → Enabled e (flags v) → IsEnding (flags v) → IsEnding (flags (step e v))
IsEnding-step e v g (inl h) =
    let (q, m, a) = step-Moved shutting e v h g in shutting-Move q (flags (step e v)) m a
IsEnding-step e v g (inr h) =
    let (q, m, a) = step-Moved ended e v h g in ended-Move q (flags (step e v)) m a

IsEnding-Completes : (w v : World) → Completes w v → IsEnding (flags w) → IsEnding (flags v)
IsEnding-Completes w _ none_left h = h
IsEnding-Completes w _ (one {v} e r c g) h = IsEnding-step e v g (IsEnding-Completes w v r h)

closes-shutting :
    (w : World) (gate : ℕ) → At live (flags w) → At shutting (flags (step (closes gate) w))
unfolding step
closes-shutting w gate h = rw flags-async_close (shut (flags w) h)
  where
    shut :
        (f : Flags)
        → At live f
        → At shutting (if is_closed f.status then f else close_round_flags (close_flags f))
    shut f a = ground arith

-- A running process that is closed, then reaped and drained in any order: as long as a completion
-- is missing the executor has one to run, and with none missing the process has ended, that is,
-- its status is closed, and its slot is free.
pub close_ends :
    (w v : World) (gate : ℕ)
    → At live (flags w)
    → Completes (step (closes gate) w) v
    → ((pending (flags v) ≡ 0) × At ended (flags v))
      ⊎ ((e : Event) × IsCompletion e × Enabled e (flags v))
close_ends w v gate h r =
    elim (IsEnding-Completes (step (closes gate) w) v r (inl (closes-shutting w gate h))) [
      | inl a ↦
          inr (IsCompletion-Enabled (flags v) a.started (λ p. absurd (unfinished (flags v) a p)))
      | inr a ↦ inl (finished (flags v) a, a)
    ]
  where
    unfinished : (f : Flags) → At shutting f → pending f ≡ 0 → ⊥
    unfinished f a p = ground arith

    finished : (f : Flags) → At ended f → pending f ≡ 0
    finished f a = ground arith
