-- ===== src/HttpServer/Lifecycle/Events.antt =====
-- The events that can happen in a state of the server, and that they keep its invariant.
use vacps.Prelude.{
  ℕ, ◌+◌, ◌≡◌, refl, ap, ◌∙◌, arith, List, [], ◌∷◌, ◌++◌, true, not, ◌&&◌, ◌||◌, ◌==◌,
  if◌then◌else◌, if-split, if-keeps,
}
use vacps.HttpServer.Lifecycle.{
  Phase, is_created, is_listening, is_closing, is_closed, Child, Server, at_closing, at_listening,
  is_open, child_inc, child_dec, try_finalize_close, close_from, begin_close, wake_drain_waiters,
  track_session, drop_expired, new_child, lost_child, end_accept_loop, next_accept, on_accept,
  Accepted, started, accept_aborted, accept_error, throws, connection, spawn_error, end_session,
  mark_closed, mark_closing, wake_close_waiters, request_shutdown, cancel_all_sessions,
}
use vacps.HttpServer.Lifecycle.Children.{
  live_count, has_live, live_count-append, live_count-drop_expired, live_count-end_child,
  all_cancelled-end_child,
}
use vacps.HttpServer.Lifecycle.Sound.{
  IsServing, IsDraining, IsEnding, IsSound, idle, serving, ending, draining, over,
}
use vacps.HttpServer.Lifecycle.Steps.{
  begin_close-IsEnding, child_dec-IsEnding, child_dec-IsServing, end_accept_loop-IsEnding,
}

loop-finalize : (s : Server) → (try_finalize_close s).accept_loop_running ≡ s.accept_loop_running
unfolding try_finalize_close wake_close_waiters wake_drain_waiters mark_closed
loop-finalize s =
    let P = λ (q : Server). q.accept_loop_running ≡ s.accept_loop_running in
    if-keeps P (not (at_closing s.phase)) _ _ refl
      (if-keeps P (not (s.child_count == 0)) _ _ refl refl)

loop-close_from :
    (p : Phase) (s : Server) → (close_from p s).accept_loop_running ≡ s.accept_loop_running
unfolding wake_close_waiters mark_closing cancel_all_sessions request_shutdown
loop-close_from is_closed s = refl
loop-close_from is_created s = refl
loop-close_from is_listening s = loop-finalize _
loop-close_from is_closing s = loop-finalize _

loop-begin_close : (s : Server) → (begin_close s).accept_loop_running ≡ s.accept_loop_running
unfolding begin_close
loop-begin_close s = loop-close_from s.phase s

next_accept-IsSound :
    (s : Server) → IsSound s → s.accept_loop_running ≡ true → IsSound (next_accept s)
unfolding next_accept
next_accept-IsSound s x r =
    if-keeps IsSound (at_listening s.phase && is_open s.acceptor) _ _ x
      (ending (end_accept_loop-IsEnding s x r))

close_end-IsSound :
    (s : Server)
    → IsSound s
    → s.accept_loop_running ≡ true
    → IsSound (end_accept_loop (begin_close s))
close_end-IsSound s x r = ending (
    end_accept_loop-IsEnding (begin_close s) (ending (begin_close-IsEnding s x))
      (loop-begin_close s ∙ r))

-- A sound server that listens serves.
listening-IsServing : (s : Server) → IsSound s → at_listening s.phase ≡ true → IsServing s
listening-IsServing s (idle i) h = let p = ap at_listening i.phase in absurd (cc)
listening-IsServing s (serving v) h = v
listening-IsServing s (ending (draining d)) h = let p = ap at_listening d.phase in absurd (cc)
listening-IsServing s (ending (over o)) h = let p = ap at_listening o.phase in absurd (cc)

live_count-track :
    (cs : List Child) (c : Child)
    → live_count (drop_expired cs ++ c ∷ []) ≡ live_count cs + (if c.live then 1 else 0)
unfolding live_count
live_count-track cs c =
    live_count-append (drop_expired cs) (c ∷ []) ∙ omega (arith, live_count-drop_expired cs)

connected-IsServing :
    (id : ℕ) (s : Server) → IsServing s → IsServing (child_inc (track_session (new_child id) s))
unfolding child_inc track_session
connected-IsServing id s v = record {
  phase = v.phase;
  counted = let c = v.counted in omega (arith, live_count-track s.sessions (new_child id));
  loop = v.loop;
  waiters = v.waiters;
  acceptor = v.acceptor;
}

lost-IsServing :
    (id : ℕ) (s : Server)
    → IsServing s
    → IsServing (child_dec (child_inc (track_session (lost_child id) s)))
lost-IsServing id s v = child_dec-IsServing (child_inc (track_session (lost_child id) s)) (
    unfold child_inc track_session in
    record {
      phase = v.phase;
      counted = let c = v.counted in omega (arith, live_count-track s.sessions (lost_child id));
      loop = v.loop;
      waiters = v.waiters;
      acceptor = v.acceptor;
    })

pub on_accept-IsSound :
    (what : Accepted) (s : Server)
    → IsSound s
    → s.accept_loop_running ≡ true
    → IsSound (on_accept what s)
unfolding on_accept
on_accept-IsSound started s x r = next_accept-IsSound s x r
on_accept-IsSound accept_aborted s x r = ending (end_accept_loop-IsEnding s x r)
on_accept-IsSound accept_error s x r =
    if-keeps IsSound (not (at_listening s.phase) || s.stop) _ _
      (ending (end_accept_loop-IsEnding s x r)) (close_end-IsSound s x r)
on_accept-IsSound throws s x r =
    if-keeps (λ (q : Server). IsSound (end_accept_loop q)) (at_listening s.phase) _ _
      (close_end-IsSound s x r) (ending (end_accept_loop-IsEnding s x r))
on_accept-IsSound (connection id) s x r =
    if-split IsSound (not (at_listening s.phase)) _ _ (λ _. ending (end_accept_loop-IsEnding s x r))
      (λ h.
        let v = connected-IsServing id s (listening-IsServing s x (ground arith)) in
        next_accept-IsSound _ (serving v) v.loop)
on_accept-IsSound (spawn_error id) s x r =
    if-split IsSound (not (at_listening s.phase)) _ _ (λ _. ending (end_accept_loop-IsEnding s x r))
      (λ h.
        let v = lost-IsServing id s (listening-IsServing s x (ground arith)) in
        next_accept-IsSound _ (serving v) v.loop)

-- The end of a session while the server drains.
pub end_session-IsEnding :
    (id : ℕ) (s : Server)
    → IsDraining 0 s
    → has_live id s.sessions ≡ true
    → IsEnding (end_session id s)
unfolding end_session
end_session-IsEnding id s d h = child_dec-IsEnding _ (record {
  phase = d.phase;
  counted = let c = d.counted in omega (arith, live_count-end_child id s.sessions h);
  stopped = d.stopped;
  told = all_cancelled-end_child id s.sessions d.told;
  acceptor = d.acceptor;
})

pub end_session-IsSound :
    (id : ℕ) (s : Server) → IsSound s → has_live id s.sessions ≡ true → IsSound (end_session id s)
unfolding end_session
end_session-IsSound id s (idle i) h =
    let z = i.sessions in absurd (omega (arith, live_count-end_child id s.sessions h))
end_session-IsSound id s (ending (over o)) h =
    let z = o.sessions in absurd (omega (arith, live_count-end_child id s.sessions h))
end_session-IsSound id s (serving v) h = serving (
    child_dec-IsServing _ (record {
      phase = v.phase;
      counted = let c = v.counted in omega (arith, live_count-end_child id s.sessions h);
      loop = v.loop;
      waiters = v.waiters;
      acceptor = v.acceptor;
    }))
end_session-IsSound id s (ending (draining d)) h = ending (end_session-IsEnding id s d h)
