-- ===== src/FileQueue/Once.antt =====
-- Every acquire is completed at most once, and none is lost.
use vacps.Prelude.{
  if-keeps, ℕ, ◌+◌, ◌-◌, ◌&&◌, ◌≡◌, refl, ap, ◌∙◌, arith, List, [], ◌∷◌, Option, none, some, ◌==◌,
  ltb, true, if◌then◌else◌,
}
use vacps.FileQueue.{
  Entry, Work, grants, aborts, cancels, StopToken, Queue, post, acquire_free, enqueue, acquire,
  arm_stop, push_waiter, next_entry, hand_over, release, abort_found, cancel_waiter, notify_stop,
  has_stop, perform, run_posted, drop_lease, Event, acquires, stops, runs, drops_lease, step, run,
}
use vacps.FileQueue.Laws.{
  grants_of, aborts_of, waiting, count, grants_of-append, aborts_of-append, waiting-append,
  count-append, IsSplit, find_waiter-IsSplit, count-Removed,
}

-- How often a handler occurs: called, about to be called, or waiting.
unfoldable pub tally : ℕ → Queue → ℕ
tally h q =
    count h q.granted
    + count h q.aborted
    + count h (grants_of q.posted)
    + count h (aborts_of q.posted)
    + count h (waiting q.waiters)

unfoldable pub occurs : ℕ → ℕ → ℕ
occurs h k = if k == h then 1 else 0

unfoldable pub weight : ℕ → Work → ℕ
weight h (grants k) = occurs h k
weight h (aborts k) = occurs h k
weight h (cancels id) = 0

tally-post : (h : ℕ) (work : Work) (q : Queue) → tally h (post work q) ≡ tally h q + weight h work
unfolding tally post weight occurs count aborts_of grants_of
tally-post h (grants k) q =
    rw (grants_of-append, aborts_of-append, count-append, count-append) (omega arith)
tally-post h (aborts k) q =
    rw (grants_of-append, aborts_of-append, count-append, count-append) (omega arith)
tally-post h (cancels k) q =
    rw (grants_of-append, aborts_of-append, count-append, count-append) (omega arith)

tally-push_waiter :
    (h : ℕ) (e : Entry) (q : Queue) → tally h (push_waiter e q) ≡ tally h q + occurs h e.complete
unfolding tally push_waiter occurs count waiting
tally-push_waiter h e q = rw (waiting-append, count-append) (omega arith)

tally-arm_stop :
    (h : ℕ) (e : Entry) (stop : StopToken) (q : Queue) → tally h (arm_stop e stop q) ≡ tally h q
unfolding arm_stop
tally-arm_stop h e stop q =
    let numbered : tally h (record q { next_id = e.id }) ≡ tally h q = unfold tally in refl in
    if-keeps (λ (q' : Queue). tally h q' ≡ tally h q) (stop.possible && stop.notified) _ _
      (tally-post h (cancels e.id) _ ∙ (unfold weight in omega (arith, numbered))) numbered

tally-acquire :
    (h k : ℕ) (stop : StopToken) (q : Queue) → tally h (acquire k stop q) ≡ tally h q + occurs h k
unfolding acquire acquire_free enqueue weight
tally-acquire h k stop q =
    let armed = tally-arm_stop h (next_entry k stop q) stop q in
    let taken : tally h (record q { leased = true }) ≡ tally h q = unfold tally in refl in
    let aborted = tally-post h (aborts k) (arm_stop (next_entry k stop q) stop q) in
    let refused = tally-post h (aborts k) q in
    let granted = tally-post h (grants k) (record q { leased = true }) in
    let pushed =
      tally-push_waiter h (next_entry k stop q) (arm_stop (next_entry k stop q) stop q) in
    let P = λ (q' : Queue). tally h q' ≡ tally h q + occurs h k in
    if-keeps P q.leased _ _
      (if-keeps P stop.requested _ _ (aborted ∙ ap (◌+ occurs h k) armed)
        (pushed ∙ ap (◌+ occurs h k) armed))
      (if-keeps P stop.requested _ _ refused (granted ∙ ap (◌+ occurs h k) taken))

tally-hand_over :
    (h : ℕ) (q : Queue) (es : List Entry) → q.waiters ≡ es → tally h (hand_over es q) ≡ tally h q
tally-hand_over h q [] eq = unfold tally in refl
tally-hand_over h q (e ∷ rest) eq =
    tally-post h (grants e.complete) (record q { waiters = rest })
    ∙ (unfold tally weight occurs waiting count in rw eq (omega arith))

tally-abort_found :
    (h : ℕ) (q : Queue) (o : Option (Entry × List Entry))
    → IsSplit q.waiters o
    → tally h (abort_found o q) ≡ tally h q
tally-abort_found h q none s = refl
tally-abort_found h q (some p) s =
    tally-post h (aborts p.0.complete) (record q { waiters = p.1 })
    ∙ (unfold tally weight occurs in omega (arith, count-Removed h s))

tally-notify_stop : (h id : ℕ) (q : Queue) → tally h (notify_stop id q) ≡ tally h q
unfolding notify_stop
tally-notify_stop h id q =
    if-keeps (λ (q' : Queue). tally h q' ≡ tally h q) (has_stop id q.waiters) _ _
      (tally-post h (cancels id) q ∙ (unfold weight in omega arith)) refl

tally-cancel_waiter : (h id : ℕ) (q : Queue) → tally h (cancel_waiter id q) ≡ tally h q
unfolding cancel_waiter
tally-cancel_waiter h id q = tally-abort_found h q _ (find_waiter-IsSplit id q.waiters)

tally-passed :
    (h id : ℕ) (rest : List Work) (q : Queue)
    → q.posted ≡ cancels id ∷ rest
    → tally h (record q { posted = rest }) ≡ tally h q
unfolding tally grants_of aborts_of
tally-passed h id rest q eq = rw eq refl

tally-run_posted :
    (h : ℕ) (q : Queue) (ws : List Work) → q.posted ≡ ws → tally h (run_posted ws q) ≡ tally h q
unfolding perform
tally-run_posted h q [] eq = refl
tally-run_posted h q (grants k ∷ rest) eq =
    unfold tally grants_of aborts_of count in rw (eq, count-append) (omega arith)
tally-run_posted h q (aborts k ∷ rest) eq =
    unfold tally grants_of aborts_of count in rw (eq, count-append) (omega arith)
tally-run_posted h q (cancels id ∷ rest) eq =
    tally-cancel_waiter h id (record q { posted = rest }) ∙ tally-passed h id rest q eq

tally-drop_lease : (h : ℕ) (q : Queue) → tally h (drop_lease q) ≡ tally h q
unfolding drop_lease release
tally-drop_lease h q =
    if-keeps (λ (q' : Queue). tally h q' ≡ tally h q) (ltb 0 q.holders) _ _
      (tally-hand_over h (record q { holders = q.holders - 1 }) q.waiters refl
        ∙ (unfold tally in refl))
      refl

-- How often a handler is passed to `async_acquire`.
unfoldable pub asked : ℕ → List Event → ℕ
asked h [] = 0
asked h (acquires k stop ∷ es) = occurs h k + asked h es
asked h (stops id ∷ es) = asked h es
asked h (runs ∷ es) = asked h es
asked h (drops_lease ∷ es) = asked h es

-- Over any events, a handler is called, about to be called or waiting as often as it was passed
-- to an acquire, besides what the queue held before.
pub run-tally : (h : ℕ) (es : List Event) (q : Queue) → tally h (run es q) ≡ tally h q + asked h es
unfolding run asked step
run-tally h [] q = omega arith
run-tally h (acquires k stop ∷ es) q = run-tally h es _ ∙ (omega (arith, tally-acquire h k stop q))
run-tally h (stops id ∷ es) q = run-tally h es _ ∙ ap (◌+ asked h es) (tally-notify_stop h id q)
run-tally h (runs ∷ es) q =
    run-tally h es _ ∙ ap (◌+ asked h es) (tally-run_posted h q q.posted refl)
run-tally h (drops_lease ∷ es) q = run-tally h es _ ∙ ap (◌+ asked h es) (tally-drop_lease h q)
