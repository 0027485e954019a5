-- ===== src/HttpServer/Lifecycle/Calls.antt =====
-- The calls of listen and close, and what holds after any events.
use vacps.Prelude.{
  ℕ, ◌+◌, ◌-◌, ◌≡◌, ◌⊎◌, inl, inr, refl, sym, ap, subst, arith, ◌++◌, append-nil, Bool, true, false,
  not, ltb, ◌==◌, Option, none, some, if-split, if_true, if_false,
}
use vacps.HttpServer.{OptionFault, ListenAddress}
use vacps.HttpServer.Lifecycle.{
  Phase, Server, at_closing, at_closed, child_inc, child_dec, try_finalize_close, begin_close,
  wake_drain_waiters, Setup, invalid_host, open_failed, option_failed, bind_failed, listen_failed,
  endpoint_failed, spawn_failed, spawned, commit, roll_back, set_up, listen_checked, listen_from,
  async_listen, ListenResult, Closer, draining, completing, returned, add_drain_waiter,
  add_close_waiter, wait_close_complete, wait_children_drained, close_loop, async_close, resume,
}
use vacps.HttpServer.Lifecycle.Sound.{
  children, IsIdle, IsServing, IsDraining, IsOver, IsEnding, IsSound, idle, serving, ending, over,
  new_server-IsSound, draining-IsStopping,
}
use vacps.HttpServer.Lifecycle.Sound as Sound
use vacps.HttpServer.Lifecycle.Steps.{begin_close-IsEnding}

commit-IsServing : (address : ListenAddress) (s : Server) → IsIdle s → IsServing (commit address s)
unfolding commit child_inc
commit-IsServing address s i = record {
  phase = refl;
  counted = let c = i.counted in let l = i.sessions in omega arith;
  loop = refl;
  waiters = i.waiters;
  acceptor = refl;
}

-- Where the accept loop cannot be spawned, the server is as it was before.
roll_back-commit :
    (address : ListenAddress) (s : Server) → IsIdle s → roll_back (commit address s) ≡ s
unfolding roll_back commit child_inc child_dec wake_drain_waiters try_finalize_close
roll_back-commit address s i =
    let c = i.counted in
    if_false (λ (q : Server). q ≡ s) (s.child_count + 1 == 0) _ _ (ground arith)
      (if_true (λ (q : Server). q ≡ s) (s.child_count + 1 - 1 == 0) _ _ (ground arith)
        (λ k. record {
          phase = sym i.phase k;
          acceptor = sym i.acceptor k;
          bound = sym i.bound k;
          stop = s.stop;
          child_count = back s.child_count k;
          drain_waiters = sym i.waiters.0 k;
          close_waiters = s.close_waiters;
          sessions = s.sessions;
          accept_loop_running = sym i.loop k;
          woken = same_woken k;
        }))
  where
    back : (n : ℕ) → n + 1 - 1 ≡ n
    back n = omega arith

    same_woken : s.woken ++ s.drain_waiters ≡ s.woken
    same_woken = rw i.waiters.0 (append-nil s.woken)

-- Whether a call of listen gave an address.
abbrev pub has_listened : ListenResult → Bool
has_listened (ListenResult.listens_on address) = true
has_listened r = false

-- A listen that fails leaves the server as it was, so that it can be tried again; one that gives an
-- address leaves it serving.
abbrev pub IsListened : Server → Server × ListenResult → Type 0
IsListened s r =
    ((has_listened r.1 ≡ false) × (r.0 ≡ s)) ⊎ ((has_listened r.1 ≡ true) × IsServing r.0)

set_up-IsListened : (setup : Setup) (s : Server) → IsIdle s → IsListened s (set_up setup s)
set_up-IsListened (invalid_host code) s i = inl (refl, refl)
set_up-IsListened (open_failed code) s i = inl (refl, refl)
set_up-IsListened (option_failed code) s i = inl (refl, refl)
set_up-IsListened (bind_failed code) s i = inl (refl, refl)
set_up-IsListened (listen_failed code) s i = inl (refl, refl)
set_up-IsListened (endpoint_failed code) s i = inl (refl, refl)
set_up-IsListened (spawn_failed address) s i = inl (refl, roll_back-commit address s i)
set_up-IsListened (spawned address) s i = inr (refl, commit-IsServing address s i)

-- A call of listen on a sound server that fails leaves it exactly as it was, so that it can be tried
-- again, and one that gives an address leaves it serving.
pub async_listen-IsListened :
    (fault : Option OptionFault) (setup : Setup) (s : Server)
    → IsSound s
    → IsListened s (async_listen fault setup s)
unfolding async_listen
async_listen-IsListened fault setup s (idle i) =
    subst (λ (p : Phase). IsListened s (listen_from p fault setup s)) (sym i.phase) (checked fault)
  where
    checked : (fault : Option OptionFault) → IsListened s (listen_checked fault setup s)
    checked (some f) = inl (refl, refl)
    checked none = set_up-IsListened setup s i
async_listen-IsListened fault setup s (serving v) =
    subst (λ (p : Phase). IsListened s (listen_from p fault setup s)) (sym v.phase)
      (inl (refl, refl))
async_listen-IsListened fault setup s (ending (Sound.draining d)) =
    subst (λ (p : Phase). IsListened s (listen_from p fault setup s)) (sym d.phase)
      (inl (refl, refl))
async_listen-IsListened fault setup s (ending (over o)) =
    subst (λ (p : Phase). IsListened s (listen_from p fault setup s)) (sym o.phase)
      (inl (refl, refl))

pub listened-IsSound :
    (s : Server) (r : Server × ListenResult) → IsSound s → IsListened s r → IsSound r.0
listened-IsSound s r x (inl (_, same)) = subst IsSound (sym same) x
listened-IsSound s r x (inr (_, v)) = serving v

over_finalize : (s : Server) → IsOver s → try_finalize_close s ≡ s
unfolding try_finalize_close
over_finalize s o =
    if_true (λ (q : Server). q ≡ s) (not (at_closing s.phase)) _ _
      (ap (λ (p : Phase). not (at_closing p)) o.phase) refl

-- A closer goes on waiting, or it returns and the server is over.
abbrev pub Waits : Server × Closer → Type 0
Waits r = IsEnding r.0 × (r.1 ≡ returned → IsOver r.0)

wait_close_complete-Waits :
    (gate : ℕ) (s : Server) → IsEnding s → Waits (wait_close_complete gate s)
unfolding wait_close_complete add_close_waiter
wait_close_complete-Waits gate s (over o) =
    if_true Waits (at_closed s.phase) _ _ (ap at_closed o.phase) (over o, λ _. o)
wait_close_complete-Waits gate s (Sound.draining d) =
    if_false Waits (at_closed s.phase) _ _ (ap at_closed d.phase) (
      Sound.draining (record {
        phase = d.phase;
        counted = d.counted;
        some_left = d.some_left;
        stopped = d.stopped;
        told = d.told;
        acceptor = d.acceptor;
      }),
      λ h. absurd (cc),
    )

wait_children_drained-Waits :
    (gate : ℕ) (s : Server) → IsEnding s → Waits (wait_children_drained gate s)
unfolding wait_children_drained add_drain_waiter
wait_children_drained-Waits gate s (over o) =
    if_false Waits (ltb 0 s.child_count) _ _ (let c = o.counted in ground arith) (
      wait_close_complete-Waits gate (try_finalize_close s)
        (subst IsEnding (sym (over_finalize s o)) (over o)))
wait_children_drained-Waits gate s (Sound.draining d) =
    if_true Waits (ltb 0 s.child_count) _ _ (let c = d.some_left in ground arith) (
      Sound.draining (record {
        phase = d.phase;
        counted = d.counted;
        some_left = d.some_left;
        stopped = d.stopped;
        told = d.told;
        acceptor = d.acceptor;
      }),
      λ h. absurd (cc),
    )

closed-IsOver : (s : Server) → IsSound s → at_closed s.phase ≡ true → IsOver s
closed-IsOver s (idle i) h = let p = ap at_closed i.phase in absurd (cc)
closed-IsOver s (serving v) h = let p = ap at_closed v.phase in absurd (cc)
closed-IsOver s (ending (Sound.draining d)) h = let p = ap at_closed d.phase in absurd (cc)
closed-IsOver s (ending (over o)) h = o

closed-IsEnding : (s : Server) → IsSound s → at_closed s.phase ≡ true → IsEnding s
closed-IsEnding s x h = over (closed-IsOver s x h)

pub resume-Waits :
    (gate : ℕ) (c : Closer) (s : Server)
    → IsEnding s
    → (c ≡ returned → IsOver s)
    → Waits (resume gate c s)
unfolding resume
resume-Waits gate draining s x h = wait_children_drained-Waits gate s x
resume-Waits gate completing s x h = wait_close_complete-Waits gate s x
resume-Waits gate returned s x h = (x, h)

-- A close of a sound server leaves it closing or closed, with a stop requested of every child, and
-- returns at once only if no child is left and the server is closed.
pub async_close-Waits : (gate : ℕ) (s : Server) → IsSound s → Waits (async_close gate s)
unfolding async_close close_loop
async_close-Waits gate s x =
    let waits = wait_children_drained-Waits gate (begin_close s) (begin_close-IsEnding s x) in
    if-split Waits (at_closed s.phase) _ _ (λ h. (closed-IsEnding s x h, λ _. closed-IsOver s x h))
      (λ _.
        if-split Waits (at_closed (begin_close s).phase) _ _
          (λ h. (
            begin_close-IsEnding s x,
            λ _. closed-IsOver (begin_close s) (ending (begin_close-IsEnding s x)) h,
          ))
          (λ _. waits))
