-- ===== src/FileQueue/Leases.antt =====
-- The leases of the queue: at most one exists at a time, and while handlers wait one does.
use vacps.Prelude.{
  if-keeps, if_true, if_false, ℕ, ◌+◌, ◌-◌, ◌≡◌, refl, ap, ◌∙◌, arith, List, [], ◌∷◌, Option, none,
  some, ltb, Bool-cases, true, false, length, length-append, inl, inr, ◌&&◌,
}
use vacps.FileQueue.{
  Entry, Work, grants, aborts, cancels, StopToken, Queue, new_queue, post, acquire_free, enqueue,
  acquire, arm_stop, push_waiter, next_entry, hand_over, release, abort_found, cancel_waiter,
  notify_stop, has_stop, perform, run_posted, drop_lease, Event, acquires, stops, runs, drops_lease,
  step, run,
}
use vacps.FileQueue.Laws.{grants_of, grants_of-append, IsSplit, find_waiter-IsSplit, Removed}

-- The leases in the hands of handlers and in the executor's posted work.
unfoldable pub leases : Queue → ℕ
leases q = q.holders + length (grants_of q.posted)

pub data IsExclusive (q : Queue) : Type 0 where
  free : q.leased ≡ false → leases q ≡ 0 → q.waiters ≡ [] → IsExclusive q
  busy : q.leased ≡ true → leases q ≡ 1 → IsExclusive q

leases-grants : (h : ℕ) (q : Queue) → leases (post (grants h) q) ≡ leases q + 1
unfolding leases post grants_of
leases-grants h q = rw (grants_of-append, length-append) (omega arith)

leases-aborts : (h : ℕ) (q : Queue) → leases (post (aborts h) q) ≡ leases q
unfolding leases post grants_of
leases-aborts h q = rw (grants_of-append, length-append) (omega arith)

leases-cancels : (h : ℕ) (q : Queue) → leases (post (cancels h) q) ≡ leases q
unfolding leases post grants_of
leases-cancels h q = rw (grants_of-append, length-append) (omega arith)

aborts-IsExclusive : (h : ℕ) (q : Queue) → IsExclusive q → IsExclusive (post (aborts h) q)
unfolding post
aborts-IsExclusive h q (free a b c) = free a (leases-aborts h q ∙ b) c
aborts-IsExclusive h q (busy a b) = busy a (leases-aborts h q ∙ b)

cancels-IsExclusive : (h : ℕ) (q : Queue) → IsExclusive q → IsExclusive (post (cancels h) q)
unfolding post
cancels-IsExclusive h q (free a b c) = free a (leases-cancels h q ∙ b) c
cancels-IsExclusive h q (busy a b) = busy a (leases-cancels h q ∙ b)

grants-IsExclusive :
    (h : ℕ) (q : Queue) → q.leased ≡ true → leases q ≡ 0 → IsExclusive (post (grants h) q)
unfolding post
grants-IsExclusive h q a b = busy a (leases-grants h q ∙ ap (◌+ 1) b)

enqueue-IsExclusive :
    (k : ℕ) (stop : StopToken) (q : Queue)
    → q.leased ≡ true
    → leases q ≡ 1
    → IsExclusive (enqueue k stop q)
unfolding enqueue arm_stop push_waiter post leases
enqueue-IsExclusive k stop q a b =
    let e = next_entry k stop q in
    let P = λ (q' : Queue). (q'.leased ≡ true) × (leases q' ≡ 1) in
    let armed : P (arm_stop e stop q) =
      if-keeps P (stop.possible && stop.notified) _ _
        (a, leases-cancels e.id (record q { next_id = e.id }) ∙ b) (a, b) in
    if-keeps IsExclusive stop.requested _ _ (aborts-IsExclusive k _ (busy armed.0 armed.1))
      (busy armed.0 armed.1)

acquire-IsExclusive :
    (k : ℕ) (stop : StopToken) (q : Queue) → IsExclusive q → IsExclusive (acquire k stop q)
unfolding acquire acquire_free leases
acquire-IsExclusive k stop q (free a b c) = if_false IsExclusive q.leased _ _ a (
    if-keeps IsExclusive stop.requested _ _ (aborts-IsExclusive k q (free a b c))
      (grants-IsExclusive k (record q { leased = true }) refl b))
acquire-IsExclusive k stop q (busy a b) =
    if_true IsExclusive q.leased _ _ a (enqueue-IsExclusive k stop q a b)

hand_over-IsExclusive :
    (q : Queue) (es : List Entry)
    → q.waiters ≡ es
    → q.leased ≡ true
    → leases q ≡ 0
    → IsExclusive (hand_over es q)
unfolding leases
hand_over-IsExclusive q [] eq a b = free refl b eq
hand_over-IsExclusive q (e ∷ rest) eq a b =
    grants-IsExclusive e.complete (record q { waiters = rest }) a b

drop_lease-IsExclusive : (q : Queue) → IsExclusive q → IsExclusive (drop_lease q)
unfolding drop_lease release leases
drop_lease-IsExclusive q (free a b c) =
    if_false IsExclusive (ltb 0 q.holders) _ _ (ground arith) (free a b c)
drop_lease-IsExclusive q (busy a b) = elim (Bool-cases (ltb 0 q.holders)) [
  | inl held ↦
      if_true IsExclusive (ltb 0 q.holders) _ _ held (
        hand_over-IsExclusive (record q { holders = q.holders - 1 }) q.waiters refl a
          (ground arith))
  | inr not_held ↦ if_false IsExclusive (ltb 0 q.holders) _ _ not_held (busy a b)
]

empty-Removed : {e : Entry} {es rest : List Entry} → es ≡ [] → Removed e es rest → rest ≡ []
empty-Removed h Removed.here = absurd (cc)
empty-Removed h (Removed.there r) = absurd (cc)

abort_found-IsExclusive :
    (q : Queue) (o : Option (Entry × List Entry))
    → IsSplit q.waiters o
    → IsExclusive q
    → IsExclusive (abort_found o q)
unfolding leases
abort_found-IsExclusive q none s x = x
abort_found-IsExclusive q (some p) s (free a b c) =
    aborts-IsExclusive p.0.complete (record q { waiters = p.1 }) (free a b (empty-Removed c s))
abort_found-IsExclusive q (some p) s (busy a b) =
    aborts-IsExclusive p.0.complete (record q { waiters = p.1 }) (busy a b)

-- Work that is taken from the list, where its lease, if any, stays.
taken-IsExclusive :
    (q q' : Queue)
    → q'.leased ≡ q.leased
    → leases q' ≡ leases q
    → q'.waiters ≡ q.waiters
    → IsExclusive q
    → IsExclusive q'
taken-IsExclusive q q' l n w (free a b c) = free (l ∙ a) (n ∙ b) (w ∙ c)
taken-IsExclusive q q' l n w (busy a b) = busy (l ∙ a) (n ∙ b)

cancel_waiter-IsExclusive : (id : ℕ) (q : Queue) → IsExclusive q → IsExclusive (cancel_waiter id q)
unfolding cancel_waiter
cancel_waiter-IsExclusive id q x = abort_found-IsExclusive q _ (find_waiter-IsSplit id q.waiters) x

leases-taken :
    (q : Queue) (ws : List Work) (n : ℕ)
    → length (grants_of q.posted) ≡ n + length (grants_of ws)
    → leases (record q { posted = ws; holders = q.holders + n }) ≡ leases q
unfolding leases
leases-taken q ws n h = omega arith

run_posted-IsExclusive :
    (q : Queue) (ws : List Work) → q.posted ≡ ws → IsExclusive q → IsExclusive (run_posted ws q)
unfolding perform grants_of leases
run_posted-IsExclusive q [] eq x = x
run_posted-IsExclusive q (grants k ∷ rest) eq x =
    taken-IsExclusive q _ refl (rw eq (omega arith)) refl x
run_posted-IsExclusive q (aborts k ∷ rest) eq x =
    taken-IsExclusive q _ refl (rw eq (omega arith)) refl x
run_posted-IsExclusive q (cancels id ∷ rest) eq x =
    cancel_waiter-IsExclusive id (record q { posted = rest })
      (taken-IsExclusive q _ refl (rw eq (omega arith)) refl x)

-- Each event keeps the queue exclusive.
pub step-IsExclusive : (e : Event) (q : Queue) → IsExclusive q → IsExclusive (step e q)
unfolding step notify_stop
step-IsExclusive (acquires k stop) q x = acquire-IsExclusive k stop q x
step-IsExclusive (stops id) q x =
    if-keeps IsExclusive (has_stop id q.waiters) _ _ (cancels-IsExclusive id q x) x
step-IsExclusive runs q x = run_posted-IsExclusive q q.posted refl x
step-IsExclusive drops_lease q x = drop_lease-IsExclusive q x

-- An exclusive queue stays exclusive over any events: while it is leased exactly one lease exists,
-- with a handler or on its way to one, and otherwise there is no lease and no waiter.
pub run-IsExclusive : (es : List Event) (q : Queue) → IsExclusive q → IsExclusive (run es q)
unfolding run
run-IsExclusive [] q x = x
run-IsExclusive (e ∷ es) q x = run-IsExclusive es (step e q) (step-IsExclusive e q x)

pub new_queue-IsExclusive : IsExclusive new_queue
unfolding leases grants_of
new_queue-IsExclusive = free refl refl refl
