-- ===== src/HttpServer/Lifecycle/Closing.antt =====
-- The events that can happen, the states they reach, and that closing comes to its end.
use vacps.Prelude.{
  ℕ, zero, suc, ◌-◌, ◌<◌, ◌≡◌, inl, inr, refl, ap, ◌∙◌, arith, List, [], ◌∷◌, Bool, true, false,
  not, ◌==◌, Bool-cases, if-split, if-keeps, if_false,
}
use vacps.HttpServer.Lifecycle.{
  Phase, is_closing, is_closed, Child, Server, new_server, at_closing, at_listening, at_closed,
  child_dec, try_finalize_close, wake_drain_waiters, wake_close_waiters, mark_closed, on_accept,
  accept_aborted, end_accept_loop, end_session, Closer, returned, dispose, Event, listens, accepts,
  session_ends, closes, resumes, disposes, step,
}
use vacps.HttpServer.Lifecycle.Children.{live_count, has_live}
use vacps.HttpServer.Lifecycle.Sound.{
  IsDraining, IsOver, IsEnding, IsSound, idle, serving, ending, draining, over, new_server-IsSound,
}
use vacps.HttpServer.Lifecycle.Steps.{begin_close-IsEnding, end_accept_loop-IsEnding}
use vacps.HttpServer.Lifecycle.Events.{on_accept-IsSound, end_session-IsSound, end_session-IsEnding}
use vacps.HttpServer.Lifecycle.Calls.{
  async_listen-IsListened, listened-IsSound, async_close-Waits, resume-Waits,
}

abbrev pub closes_down : Phase → Bool
closes_down is_closing = true
closes_down is_closed = true
closes_down _ = false

abbrev pub is_returned : Closer → Bool
is_returned returned = true
is_returned _ = false

-- The accept loop wakes only while it runs, a session ends only once, and a closer waits only where
-- `async_close` left it, on a server that closes down.
abbrev pub Enabled : Event → Server → Type 0
Enabled (listens fault setup) s = Unit
Enabled (accepts what) s = s.accept_loop_running ≡ true
Enabled (session_ends id) s = has_live id s.sessions ≡ true
Enabled (closes gate) s = Unit
Enabled (resumes gate closer) s = (closes_down s.phase ≡ true) × (is_returned closer ≡ false)
Enabled disposes s = Unit

down-IsEnding : (s : Server) → IsSound s → closes_down s.phase ≡ true → IsEnding s
down-IsEnding s (idle i) h = let p = ap closes_down i.phase in absurd (cc)
down-IsEnding s (serving v) h = let p = ap closes_down v.phase in absurd (cc)
down-IsEnding s (ending x) h = x

-- Each event that can happen keeps a server sound.
pub step-IsSound : (e : Event) (s : Server) → IsSound s → Enabled e s → IsSound (step e s)
unfolding step dispose
step-IsSound (listens fault setup) s x g =
    listened-IsSound s _ x (async_listen-IsListened fault setup s x)
step-IsSound (accepts what) s x g = on_accept-IsSound what s x g
step-IsSound (session_ends id) s x g = end_session-IsSound id s x g
step-IsSound (closes gate) s x g = ending (async_close-Waits gate s x).0
step-IsSound (resumes gate closer) s x g =
    ending (resume-Waits gate closer s (down-IsEnding s x g.0) (waits closer g.1)).0
  where
    waits : (c : Closer) → is_returned c ≡ false → c ≡ returned → IsOver s
    waits c h e = let r = ap is_returned e in absurd (cc)
step-IsSound disposes s x g =
    if-keeps IsSound (at_closed s.phase) _ _ x (ending (begin_close-IsEnding s x))

-- The servers that events lead to.
pub data Reach (s : Server) : Server → Type 0 where
  here : Reach s s
  next : {t : Server} (e : Event) → Reach s t → Enabled e t → Reach s (step e t)

-- Whatever happens to a new server, it stays sound: it is idle without children, it serves with its
-- accept loop and its sessions counted, it drains with at least one child left and all of them told
-- to stop, or it is closed without children and waiters.
pub Reach-IsSound : {s : Server} → Reach new_server s → IsSound s
Reach-IsSound here = new_server-IsSound
Reach-IsSound (next {t} e r g) = step-IsSound e t (Reach-IsSound r) g

count-finalize : (s : Server) → (try_finalize_close s).child_count ≡ s.child_count
unfolding try_finalize_close wake_close_waiters wake_drain_waiters mark_closed
count-finalize s =
    let P = λ (q : Server). q.child_count ≡ s.child_count in
    if-keeps P (not (at_closing s.phase)) _ _ refl
      (if-keeps P (not (s.child_count == 0)) _ _ refl refl)

count-child_dec : (s : Server) → (child_dec s).child_count ≡ s.child_count - 1
unfolding child_dec wake_drain_waiters
count-child_dec s =
    let P = λ (q : Server). q.child_count ≡ s.child_count - 1 in
    if-split P (s.child_count == 0) _ _ (λ h. ground arith)
      (λ h. if-keeps P (s.child_count - 1 == 0) _ _ (count-finalize _) refl)

-- The ends of the children.
abbrev pub IsCompletion : Event → Type 0
IsCompletion (accepts what) = what ≡ accept_aborted
IsCompletion (session_ends id) = Unit
IsCompletion _ = ⊥

-- So many children end, one after the other.
pub data Completes : ℕ → Server → Server → Type 0 where
  done : {s : Server} → Completes 0 s s
  ends :
      {n : ℕ} {s t : Server} (e : Event)
      → IsCompletion e
      → Enabled e s
      → Completes n (step e s) t
      → Completes (suc n) s t

count-ended :
    (s : Server) → s.phase ≡ is_closing → (end_accept_loop s).child_count ≡ s.child_count - 1
unfolding end_accept_loop
count-ended s h =
    if_false (λ (q : Server). (child_dec q).child_count ≡ s.child_count - 1) (at_listening s.phase)
      _ _ (ap at_listening h) (count-child_dec _)

first_live : (cs : List Child) → 0 < live_count cs → (id : ℕ) × (has_live id cs ≡ true)
unfolding live_count has_live
first_live [] h = absurd (omega arith)
first_live (c ∷ cs) h = elim (Bool-cases c.live) [
  | inl l ↦ (c.id, ground arith)
  | inr l ↦ let found = first_live cs (ground arith) in (found.0, let f = found.1 in ground arith)
]

some_live :
    (s : Server) → IsDraining 0 s → s.accept_loop_running ≡ false → 0 < live_count s.sessions
some_live s d h = let c = d.counted in let k = d.some_left in ground arith

-- One child of a draining server can end, which leaves one child less and the server ending.
one_ends :
    (s : Server)
    → IsDraining 0 s
    → (e : Event) × IsCompletion e
      × Enabled e s
      × IsEnding (step e s)
      × ((step e s).child_count ≡ s.child_count - 1)
unfolding step on_accept end_session
one_ends s d = elim (Bool-cases s.accept_loop_running) [
  | inl r ↦ (
    accepts accept_aborted,
    refl,
    r,
    end_accept_loop-IsEnding s (ending (draining d)) r,
    count-ended s d.phase,
  )
  | inr r ↦
      let found = first_live s.sessions (some_live s d r) in
      (
        session_ends found.0,
        tt,
        found.1,
        end_session-IsEnding found.0 s d found.1,
        count-child_dec _,
      )
]

-- From a server that is closing, the ends of its children, as many as it counts, can happen, and
-- they lead to a closed server without children and waiters.
pub child_count-Completes :
    (n : ℕ) (s : Server)
    → s.child_count ≡ n
    → IsEnding s
    → (t : Server) × (Completes n s t × IsOver t)
child_count-Completes zero s h (draining d) = let k = d.some_left in absurd (omega arith)
child_count-Completes zero s h (over o) = (s, (done, o))
child_count-Completes (suc n) s h (over o) = let c = o.counted in absurd (omega arith)
child_count-Completes (suc n) s h (draining d) =
    let (e, c, g, x, less) = one_ends s d in
    let rest = child_count-Completes n (step e s) (less ∙ omega arith) x in
    (rest.0, (ends e c g rest.1.0, rest.1.1))
