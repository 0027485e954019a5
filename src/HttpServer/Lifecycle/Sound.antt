-- ===== src/HttpServer/Lifecycle/Sound.antt =====
-- The invariant of the server: children are counted exactly, the loop runs while it listens, and
-- closing ends with the last child.
use vacps.Prelude.{
  ℕ, ◌+◌, ◌<◌, ◌≡◌, refl, sym, ap, subst, ◌∙◌, arith, [], Bool, true, false, not, ◌==◌, none,
  if◌then◌else◌, if-split, if_true, if_false,
}
use vacps.HttpServer.Lifecycle.{
  Phase, is_created, is_listening, is_closing, is_closed, Acceptor, no_acceptor, open_acceptor,
  Server, new_server, at_closing, is_open, shut, wake_drain_waiters, wake_close_waiters,
  mark_closed, mark_closing, try_finalize_close, request_shutdown, cancel_all_sessions, close_from,
  begin_close,
}
use vacps.HttpServer.Lifecycle.Children.{
  live_count, all_cancelled, live_count-cancel_each, all_cancelled-cancel_each,
}

-- The children that the loop and the sessions are.
abbrev pub children : Server → ℕ
children s = (if s.accept_loop_running then 1 else 0) + live_count s.sessions

pub record IsIdle (s : Server) : Type 0 where
  pub phase : s.phase ≡ is_created
  pub counted : s.child_count ≡ 0
  pub loop : s.accept_loop_running ≡ false
  pub sessions : live_count s.sessions ≡ 0
  pub waiters : (s.drain_waiters ≡ []) × (s.close_waiters ≡ [])
  pub acceptor : s.acceptor ≡ no_acceptor
  pub bound : s.bound ≡ none

pub record IsServing (s : Server) : Type 0 where
  pub phase : s.phase ≡ is_listening
  pub counted : s.child_count ≡ children s
  pub loop : s.accept_loop_running ≡ true
  pub waiters : (s.drain_waiters ≡ []) × (s.close_waiters ≡ [])
  pub acceptor : s.acceptor ≡ open_acceptor

-- With `extra` children that are counted still.
pub record IsDraining (extra : ℕ) (s : Server) : Type 0 where
  pub phase : s.phase ≡ is_closing
  pub counted : s.child_count ≡ extra + children s
  pub some_left : 0 < s.child_count
  pub stopped : s.stop ≡ true
  pub told : all_cancelled s.sessions ≡ true
  pub acceptor : is_open s.acceptor ≡ false

pub record IsOver (s : Server) : Type 0 where
  pub phase : s.phase ≡ is_closed
  pub counted : s.child_count ≡ 0
  pub loop : s.accept_loop_running ≡ false
  pub sessions : live_count s.sessions ≡ 0
  pub waiters : (s.drain_waiters ≡ []) × (s.close_waiters ≡ [])
  pub acceptor : is_open s.acceptor ≡ false

pub data IsEnding (s : Server) : Type 0 where
  draining : IsDraining 0 s → IsEnding s
  over : IsOver s → IsEnding s

pub data IsSound (s : Server) : Type 0 where
  idle : IsIdle s → IsSound s
  serving : IsServing s → IsSound s
  ending : IsEnding s → IsSound s

pub new_server-IsSound : IsSound new_server
unfolding live_count
new_server-IsSound = idle (record {
  phase = refl;
  counted = refl;
  loop = refl;
  sessions = refl;
  waiters = (refl, refl);
  acceptor = refl;
  bound = refl;
})

-- A server that stops, whatever its number of children.
pub record IsStopping (extra : ℕ) (s : Server) : Type 0 where
  pub phase : s.phase ≡ is_closing
  pub counted : s.child_count ≡ extra + children s
  pub stopped : s.stop ≡ true
  pub told : all_cancelled s.sessions ≡ true
  pub acceptor : is_open s.acceptor ≡ false

stopping-IsDraining :
    (extra : ℕ) (s : Server) → IsStopping extra s → 0 < s.child_count → IsDraining extra s
stopping-IsDraining extra s t h = record {
  phase = t.phase;
  counted = t.counted;
  some_left = h;
  stopped = t.stopped;
  told = t.told;
  acceptor = t.acceptor;
}

pub draining-IsStopping : (extra : ℕ) (s : Server) → IsDraining extra s → IsStopping extra s
draining-IsStopping extra s t = record {
  phase = t.phase;
  counted = t.counted;
  stopped = t.stopped;
  told = t.told;
  acceptor = t.acceptor;
}

loop_off : (b : Bool) (n m : ℕ) → m ≡ 0 → m ≡ (if b then 1 else 0) + n → b ≡ false
loop_off true n m z h = absurd (omega arith)
loop_off false n m z h = refl

finish-IsOver :
    (s : Server)
    → s.child_count ≡ 0
    → s.child_count ≡ children s
    → IsOver (wake_close_waiters (wake_drain_waiters (mark_closed s)))
unfolding wake_close_waiters wake_drain_waiters mark_closed
finish-IsOver s z h = record {
  phase = refl;
  counted = z;
  loop = loop_off s.accept_loop_running (live_count s.sessions) s.child_count z h;
  sessions = omega arith;
  waiters = (refl, refl);
  acceptor = refl;
}

is_zero : (n : ℕ) → not (n == 0) ≡ false → n ≡ 0
is_zero n h = ground arith

is_positive : (n : ℕ) → not (n == 0) ≡ true → 0 < n
is_positive n h = ground arith

pub try_finalize_close-IsEnding : (s : Server) → IsStopping 0 s → IsEnding (try_finalize_close s)
unfolding try_finalize_close
try_finalize_close-IsEnding s t =
    if_false IsEnding (not (at_closing s.phase)) _ _
      (ap (λ (p : Phase). not (at_closing p)) t.phase)
      (if-split IsEnding (not (s.child_count == 0)) _ _
        (λ h. draining (stopping-IsDraining 0 s t (is_positive s.child_count h)))
        (λ h. over (finish-IsOver s (is_zero s.child_count h) (t.counted ∙ omega arith))))

-- While a child is left, closing is not finalized.
try_finalize_close-IsDraining :
    (extra : ℕ) (s : Server)
    → IsStopping extra s
    → 0 < s.child_count
    → IsDraining extra (try_finalize_close s)
unfolding try_finalize_close
try_finalize_close-IsDraining extra s t h =
    let P = IsDraining extra in
    if_false P (not (at_closing s.phase)) _ _ (ap (λ (p : Phase). not (at_closing p)) t.phase)
      (if_true P (not (s.child_count == 0)) _ _ (ground arith) (stopping-IsDraining extra s t h))

pub told-IsStopping :
    (extra : ℕ) (s : Server)
    → s.phase ≡ is_closing
    → s.child_count ≡ extra + children s
    → IsStopping extra (cancel_all_sessions (request_shutdown s))
unfolding cancel_all_sessions request_shutdown
told-IsStopping extra s p h = record {
  phase = p;
  counted = omega (arith, h, live_count-cancel_each s.sessions);
  stopped = refl;
  told = all_cancelled-cancel_each s.sessions;
  acceptor = shut_closed s.acceptor;
}
  where
    shut_closed : (a : Acceptor) → is_open (shut a) ≡ false
    shut_closed no_acceptor = refl
    shut_closed a = refl

pub at_phase :
    (P : Server → Type 0) (s : Server) (p : Phase)
    → s.phase ≡ p
    → P (close_from p s)
    → P (begin_close s)
unfolding begin_close
at_phase P s p h x = subst (λ (q : Phase). P (close_from q s)) (sym h) x

-- Closing a listening server, of which `extra` children are counted still.
pub begin_close-IsDraining :
    (extra : ℕ) (s : Server)
    → s.phase ≡ is_listening
    → s.child_count ≡ extra + children s
    → 0 < s.child_count
    → IsDraining extra (begin_close s)
begin_close-IsDraining extra s p h k = at_phase (IsDraining extra) s is_listening p (
    unfold mark_closing cancel_all_sessions request_shutdown in
    try_finalize_close-IsDraining extra (cancel_all_sessions (request_shutdown (mark_closing s)))
      (told-IsStopping extra (mark_closing s) refl h) k)
