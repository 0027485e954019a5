-- ===== src/HttpServer/Lifecycle/Steps.antt =====
-- Every event keeps the server's invariant.
use vacps.Prelude.{
  ◌+◌, ◌-◌, ◌<◌, ◌≡◌, refl, ap, ◌∙◌, arith, [], true, false, ◌==◌, if-split, if_true, if_false,
}
use vacps.HttpServer.Lifecycle.{
  is_created, is_listening, is_closing, is_closed, open_acceptor, Server, at_listening, is_open,
  child_dec, wake_drain_waiters, wake_close_waiters, begin_close, end_accept_loop,
}
use vacps.HttpServer.Lifecycle.Sound.{
  children, IsIdle, IsServing, IsOver, IsEnding, IsSound, IsStopping, idle, serving, ending,
  draining, over, draining-IsStopping, try_finalize_close-IsEnding, told-IsStopping, at_phase,
  begin_close-IsDraining,
}

idle-IsOver : (s : Server) → IsIdle s → IsOver (wake_close_waiters (record s { phase = is_closed }))
unfolding wake_close_waiters
idle-IsOver s i = record {
  phase = refl;
  counted = i.counted;
  loop = i.loop;
  sessions = i.sessions;
  waiters = (i.waiters.0, refl);
  acceptor = ap is_open i.acceptor;
}

pub serving_some : (s : Server) → IsServing s → 0 < s.child_count
serving_some s v = let loop = v.loop in ground (arith, v.counted)

-- Closing a sound server, in whatever phase, leaves it draining or over.
pub begin_close-IsEnding : (s : Server) → IsSound s → IsEnding (begin_close s)
begin_close-IsEnding s (idle i) = at_phase IsEnding s is_created i.phase (over (idle-IsOver s i))
begin_close-IsEnding s (serving v) =
    draining (begin_close-IsDraining 0 s v.phase (v.counted ∙ omega arith) (serving_some s v))
begin_close-IsEnding s (ending (draining d)) =
    at_phase IsEnding s is_closing d.phase
      (try_finalize_close-IsEnding _ (told-IsStopping 0 s d.phase d.counted))
begin_close-IsEnding s (ending (over o)) = at_phase IsEnding s is_closed o.phase (over o)

abbrev less : Server → Server
less s = record s { child_count = s.child_count - 1 }

-- The last of the children that are counted still is taken off.
pub child_dec-IsEnding : (s : Server) → IsStopping 1 s → IsEnding (child_dec s)
unfolding child_dec wake_drain_waiters
child_dec-IsEnding s t =
    if_false IsEnding (s.child_count == 0) _ _ (let c = t.counted in ground arith) (
      if-split IsEnding (s.child_count - 1 == 0) _ _
        (λ h. try_finalize_close-IsEnding (wake_drain_waiters (less s)) (record {
          phase = t.phase;
          counted = let c = t.counted in omega arith;
          stopped = t.stopped;
          told = t.told;
          acceptor = t.acceptor;
        }))
        (λ h. draining (record {
          phase = t.phase;
          counted = let c = t.counted in omega arith;
          some_left = ground arith;
          stopped = t.stopped;
          told = t.told;
          acceptor = t.acceptor;
        })))

-- A server that listens, with one child more than it has.
pub record IsServingPlus (s : Server) : Type 0 where
  pub phase : s.phase ≡ is_listening
  pub counted : s.child_count ≡ 1 + children s
  pub loop : s.accept_loop_running ≡ true
  pub waiters : (s.drain_waiters ≡ []) × (s.close_waiters ≡ [])
  pub acceptor : s.acceptor ≡ open_acceptor

pub child_dec-IsServing : (s : Server) → IsServingPlus s → IsServing (child_dec s)
unfolding child_dec
child_dec-IsServing s v =
    let c = v.counted in
    let l = v.loop in
    if_false IsServing (s.child_count == 0) _ _ (ground arith) (
      if_false IsServing (s.child_count - 1 == 0) _ _ (ground arith) (record {
        phase = v.phase;
        counted = omega arith;
        loop = v.loop;
        waiters = v.waiters;
        acceptor = v.acceptor;
      }))

pub end_accept_loop-IsEnding :
    (s : Server) → IsSound s → s.accept_loop_running ≡ true → IsEnding (end_accept_loop s)
unfolding end_accept_loop
end_accept_loop-IsEnding s (idle i) r = let l = i.loop in absurd (cc)
end_accept_loop-IsEnding s (ending (over o)) r = let l = o.loop in absurd (cc)
end_accept_loop-IsEnding s (serving v) r =
    if_true (λ (q : Server). IsEnding (child_dec q)) (at_listening s.phase) _ _
      (ap at_listening v.phase)
      (child_dec-IsEnding _ (
        draining-IsStopping 1 _ (
          begin_close-IsDraining 1 (record s { accept_loop_running = false }) v.phase
            (let c = v.counted in ground arith) (serving_some s v))))
end_accept_loop-IsEnding s (ending (draining d)) r =
    if_false (λ (q : Server). IsEnding (child_dec q)) (at_listening s.phase) _ _
      (ap at_listening d.phase)
      (child_dec-IsEnding _ (record {
        phase = d.phase;
        counted = let c = d.counted in ground arith;
        stopped = d.stopped;
        told = d.told;
        acceptor = d.acceptor;
      }))
