-- ===== src/FileQueue/Order.antt =====
-- The leases of the queue go to the handlers in the order of their acquires.
use mathlib.Core.List.{Sublist, sublist-append_left, sublist-cons_self}
use mathlib.Core.List.Sublist as Sub
use vacps.Prelude.{
  if-keeps, if_true, if_false, ℕ, ◌-◌, ◌≡◌, refl, sym, ap, subst, ◌∙◌, List, [], ◌∷◌, ◌++◌,
  append-nil, append_assoc, Option, none, some, ltb, true, ◌&&◌,
}
use vacps.FileQueue.{
  Entry, Work, grants, aborts, cancels, StopToken, Queue, new_queue, post, acquire_free, enqueue,
  acquire, arm_stop, push_waiter, next_entry, hand_over, release, abort_found, cancel_waiter,
  notify_stop, has_stop, perform, run_posted, drop_lease, Event, acquires, stops, runs, drops_lease,
  step, run,
}
use vacps.FileQueue.Laws.{
  grants_of, grants_of-append, waiting, waiting-append, IsSplit, find_waiter-IsSplit, Removed,
}
use vacps.FileQueue.Leases.{IsExclusive, free, busy, step-IsExclusive, new_queue-IsExclusive}

-- The handlers that were called with a lease, then those about to be, then those that wait.
unfoldable pub order : Queue → List ℕ
order q = q.granted ++ (grants_of q.posted ++ waiting q.waiters)

order-aborts : (h : ℕ) (q : Queue) → order (post (aborts h) q) ≡ order q
unfolding order post grants_of
order-aborts h q = rw (grants_of-append, append-nil) refl

order-cancels : (id : ℕ) (q : Queue) → order (post (cancels id) q) ≡ order q
unfolding order post grants_of
order-cancels id q = rw (grants_of-append, append-nil) refl

order-push_waiter : (e : Entry) (q : Queue) → order (push_waiter e q) ≡ order q ++ e.complete ∷ []
unfolding order push_waiter waiting
order-push_waiter e q = rw waiting-append (simp append_assoc)

-- A handler that is granted where none waits, and the first of those that wait.
order-grants_last :
    (h : ℕ) (q : Queue) → q.waiters ≡ [] → order (post (grants h) q) ≡ order q ++ h ∷ []
unfolding order post grants_of waiting
order-grants_last h q c = rw (c, grants_of-append) (simp (append_assoc, append-nil))

order-grants_first :
    (e : Entry) (rest : List Entry) (q : Queue)
    → q.waiters ≡ e ∷ rest
    → order (post (grants e.complete) (record q { waiters = rest })) ≡ order q
unfolding order post grants_of waiting
order-grants_first e rest q c = rw (c, grants_of-append) (simp append_assoc)

order-arm_stop : (e : Entry) (stop : StopToken) (q : Queue) → order (arm_stop e stop q) ≡ order q
unfolding arm_stop
order-arm_stop e stop q =
    let numbered : order (record q { next_id = e.id }) ≡ order q = unfold order in refl in
    if-keeps (λ (q' : Queue). order q' ≡ order q) (stop.possible && stop.notified) _ _
      (order-cancels e.id _ ∙ numbered) numbered

abbrev Follows : List ℕ → Queue → Type 0
Follows xs q = Sublist (order q) xs

same-Follows : (q : Queue) (xs : List ℕ) → order q ≡ xs → Follows xs q
same-Follows q xs h = subst (λ (ys : List ℕ). Sublist (order q) ys) h (Sub.refl (order q))

kept-Follows : (k : ℕ) (q q' : Queue) → order q' ≡ order q → Follows (order q ++ k ∷ []) q'
kept-Follows k q q' h =
    Sub.trans (same-Follows q' (order q) h) (sublist-append_left (order q) (k ∷ []))

acquire-Follows :
    (k : ℕ) (stop : StopToken) (q : Queue)
    → IsExclusive q
    → Follows (order q ++ k ∷ []) (acquire k stop q)
unfolding acquire acquire_free
acquire-Follows k stop q (free a b c) =
    let taken : order (record q { leased = true }) ≡ order q = unfold order in refl in
    let P = Follows (order q ++ k ∷ []) in
    if_false P q.leased _ _ a (
      if-keeps P stop.requested _ _ (kept-Follows k q _ (order-aborts k q)) (
        same-Follows _ _
          (order-grants_last k (record q { leased = true }) c ∙ ap (◌++ k ∷ []) taken)))
acquire-Follows k stop q (busy a b) =
    let P = Follows (order q ++ k ∷ []) in
    let e = next_entry k stop q in
    let armed = order-arm_stop e stop q in
    if_true P q.leased _ _ a (
      unfold enqueue in
      if-keeps P stop.requested _ _
        (kept-Follows k q _ (order-aborts k (arm_stop e stop q) ∙ armed))
        (same-Follows _ _ (order-push_waiter e (arm_stop e stop q) ∙ ap (◌++ k ∷ []) armed)))

order-hand_over : (q : Queue) (es : List Entry) → q.waiters ≡ es → order (hand_over es q) ≡ order q
order-hand_over q [] eq = unfold order in refl
order-hand_over q (e ∷ rest) eq = order-grants_first e rest q eq

order-drop_lease : (q : Queue) → order (drop_lease q) ≡ order q
unfolding drop_lease release
order-drop_lease q =
    let dropped : order (record q { holders = q.holders - 1 }) ≡ order q = unfold order in refl in
    if-keeps (λ (q' : Queue). order q' ≡ order q) (ltb 0 q.holders) _ _
      (order-hand_over (record q { holders = q.holders - 1 }) q.waiters refl ∙ dropped) refl

waiting-Removed :
    {e : Entry} {es rest : List Entry} → Removed e es rest → Sublist (waiting rest) (waiting es)
unfolding waiting
waiting-Removed {e} {es} {rest} Removed.here = sublist-cons_self e.complete (waiting rest)
waiting-Removed (Removed.there {d} r) = Sub.cons-cons d.complete (waiting-Removed r)

fewer-Follows :
    (q : Queue) (ws : List Entry)
    → Sublist (waiting ws) (waiting q.waiters)
    → Follows (order q) (record q { waiters = ws })
unfolding order
fewer-Follows q ws s =
    Sub.append (Sub.refl q.granted) (Sub.append (Sub.refl (grants_of q.posted)) s)

abort_found-Follows :
    (q : Queue) (o : Option (Entry × List Entry))
    → IsSplit q.waiters o
    → Follows (order q) (abort_found o q)
abort_found-Follows q none s = Sub.refl (order q)
abort_found-Follows q (some p) s =
    Sub.trans (same-Follows _ _ (order-aborts p.0.complete (record q { waiters = p.1 })))
      (fewer-Follows q p.1 (waiting-Removed s))

cancel_waiter-Follows : (id : ℕ) (q : Queue) → Follows (order q) (cancel_waiter id q)
unfolding cancel_waiter
cancel_waiter-Follows id q = abort_found-Follows q _ (find_waiter-IsSplit id q.waiters)

order-passed :
    (q : Queue) (work : Work) (rest : List Work)
    → q.posted ≡ work ∷ rest
    → grants_of (work ∷ rest) ≡ grants_of rest
    → order (record q { posted = rest }) ≡ order q
unfolding order
order-passed q work rest eq h = rw (eq, h) refl

run_posted-Follows :
    (q : Queue) (ws : List Work) → q.posted ≡ ws → Follows (order q) (run_posted ws q)
unfolding perform
run_posted-Follows q [] eq = Sub.refl (order q)
run_posted-Follows q (grants k ∷ rest) eq =
    same-Follows _ _ (unfold order grants_of in rw eq (simp append_assoc))
run_posted-Follows q (aborts k ∷ rest) eq = same-Follows _ _ (unfold order grants_of in rw eq refl)
run_posted-Follows q (cancels id ∷ rest) eq =
    Sub.trans (cancel_waiter-Follows id (record q { posted = rest }))
      (same-Follows _ _ (order-passed q (cancels id) rest eq (unfold grants_of in refl)))

unfoldable pub arrivals : List Event → List ℕ
arrivals [] = []
arrivals (acquires k stop ∷ es) = k ∷ arrivals es
arrivals (stops id ∷ es) = arrivals es
arrivals (runs ∷ es) = arrivals es
arrivals (drops_lease ∷ es) = arrivals es

unfoldable arrival : Event → List ℕ
arrival (acquires k stop) = k ∷ []
arrival (stops id) = []
arrival runs = []
arrival drops_lease = []

step-Follows : (e : Event) (q : Queue) → IsExclusive q → Follows (order q ++ arrival e) (step e q)
unfolding step arrival notify_stop
step-Follows (acquires k stop) q x = acquire-Follows k stop q x
step-Follows (stops id) q x =
    if-keeps (Follows (order q ++ [])) (has_stop id q.waiters) _ _
      (same-Follows _ _ (order-cancels id q ∙ sym (append-nil (order q))))
      (same-Follows _ _ (sym (append-nil (order q))))
step-Follows runs q x =
    Sub.trans (run_posted-Follows q q.posted refl) (sublist-append_left (order q) [])
step-Follows drops_lease q x = same-Follows _ _ (order-drop_lease q ∙ sym (append-nil (order q)))

arrivals-first : (e : Event) (es : List Event) → arrivals (e ∷ es) ≡ arrival e ++ arrivals es
unfolding arrivals arrival
arrivals-first (acquires k stop) es = refl
arrivals-first (stops id) es = refl
arrivals-first runs es = refl
arrivals-first drops_lease es = refl

run-Follows :
    (es : List Event) (q : Queue)
    → IsExclusive q
    → Sublist (order (run es q)) (order q ++ arrivals es)
unfolding run
run-Follows [] q x = sublist-append_left (order q) (arrivals [])
run-Follows (e ∷ es) q x = Sub.trans (run-Follows es (step e q) (step-IsExclusive e q x)) (
    rw (arrivals-first e es) (
      subst (λ (ys : List ℕ). Sublist (order (step e q) ++ arrivals es) ys)
        (append_assoc (order q) (arrival e) (arrivals es))
        (Sub.append (step-Follows e q x) (Sub.refl (arrivals es)))))

run-order : (es : List Event) → Sublist (order (run es new_queue)) (arrivals es)
unfolding order grants_of waiting
run-order es = run-Follows es new_queue new_queue-IsExclusive

-- On a new queue, over any events, the handlers that were called with a lease were called in the
-- order of their acquires.
pub granted-Sublist : (es : List Event) → Sublist (run es new_queue).granted (arrivals es)
granted-Sublist es =
    let first : Sublist (run es new_queue).granted (order (run es new_queue)) =
      unfold order in
      sublist-append_left (run es new_queue).granted
        (grants_of (run es new_queue).posted ++ waiting (run es new_queue).waiters) in
    Sub.trans first (run-order es)
