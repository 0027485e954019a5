-- ===== src/FileQueue.antt =====
-- `FileOperationQueue` of modules/detail/file_operation_queue.hpp: the leases that serialize the
-- operations on one file handle. A handler is a number, the executor's posted work a list.
pub mod Laws
pub mod Leases
pub mod Once
pub mod Order
pub mod Drain
mod Examples
use vacps.Prelude.{
  ℕ, ◌+◌, ◌-◌, ◌%◌, List, [], ◌∷◌, ◌++◌, Bool, true, false, ◌&&◌, ltb, ◌==◌, if◌then◌else◌, Option,
  none, some,
}
use vacps.Process.Budget.{u64_mod}

pub record Entry : Type 0 where
  pub id : ℕ
  pub complete : ℕ
  pub stop_cb : Bool

-- Work on the queue's executor: a completion with a lease, a completion with `operation_aborted`
-- and an empty lease, and what `StopNotify` posts.
pub data Work : Type 0 where
  grants aborts cancels : ℕ → Work

-- What the acquire sees of its stop token; `notified` is whether the callback ran before
-- `stop_cb` was reset.
pub record StopToken : Type 0 where
  pub possible : Bool
  pub requested : Bool
  pub notified : Bool

-- `holders` counts the leases that handlers have; `granted` and `aborted` are the handlers that
-- were called, in order.
pub record Queue : Type 0 where
  pub leased : Bool
  pub next_id : ℕ
  pub waiters : List Entry
  pub posted : List Work
  pub holders : ℕ
  pub granted : List ℕ
  pub aborted : List ℕ

abbrev pub new_queue : Queue
new_queue = record {
  leased = false;
  next_id = 0;
  waiters = [];
  posted = [];
  holders = 0;
  granted = [];
  aborted = [];
}

unfoldable pub post : Work → Queue → Queue
post work q = record q { posted = q.posted ++ work ∷ [] }

unfoldable pub acquire_free : ℕ → StopToken → Queue → Queue
acquire_free h stop q =
    if stop.requested then post (aborts h) q else post (grants h) (record q { leased = true })

abbrev pub next_entry : ℕ → StopToken → Queue → Entry
next_entry h stop q = record {
  id = (q.next_id + 1) % u64_mod;
  complete = h;
  stop_cb = stop.possible;
}

unfoldable pub push_waiter : Entry → Queue → Queue
push_waiter e q = record q { waiters = q.waiters ++ e ∷ [] }

-- The arming of the callback, which posts at once where the stop came first.
unfoldable pub arm_stop : Entry → StopToken → Queue → Queue
arm_stop e stop q =
    let q₁ = record q { next_id = e.id } in
    if stop.possible && stop.notified then post (cancels e.id) q₁ else q₁

unfoldable pub enqueue : ℕ → StopToken → Queue → Queue
enqueue h stop q =
    let e = next_entry h stop q in
    let armed = arm_stop e stop q in
    if stop.requested then post (aborts h) armed else push_waiter e armed

-- The work that `async_acquire` dispatches.
unfoldable pub acquire : ℕ → StopToken → Queue → Queue
acquire h stop q = if q.leased then enqueue h stop q else acquire_free h stop q

abbrev pub hand_over : List Entry → Queue → Queue
hand_over [] q = record q { leased = false }
hand_over (e ∷ rest) q = post (grants e.complete) (record q { waiters = rest })

unfoldable pub release : Queue → Queue
release q = hand_over q.waiters q

-- The waiter of an id, and the waiters without it.
unfoldable pub find_waiter : ℕ → List Entry → Option (Entry × List Entry)
find_waiter id [] = none
find_waiter id (e ∷ rest) =
    let found = find_waiter id rest in
    if e.id == id then some (e, rest) else elim found [ none ↦ none | some p ↦ some (p.0, e ∷ p.1) ]

abbrev pub abort_found : Option (Entry × List Entry) → Queue → Queue
abort_found none q = q
abort_found (some p) q = post (aborts p.0.complete) (record q { waiters = p.1 })

unfoldable pub cancel_waiter : ℕ → Queue → Queue
cancel_waiter id q = abort_found (find_waiter id q.waiters) q

unfoldable pub has_stop : ℕ → List Entry → Bool
has_stop id [] = false
has_stop id (e ∷ rest) =
    let later = has_stop id rest in if e.stop_cb && e.id == id then true else later

-- `StopNotify`, while the waiter has its callback.
unfoldable pub notify_stop : ℕ → Queue → Queue
notify_stop id q = if has_stop id q.waiters then post (cancels id) q else q

unfoldable pub perform : Work → Queue → Queue
perform (grants h) q = record q { granted = q.granted ++ h ∷ []; holders = q.holders + 1 }
perform (aborts h) q = record q { aborted = q.aborted ++ h ∷ [] }
perform (cancels id) q = cancel_waiter id q

abbrev pub run_posted : List Work → Queue → Queue
run_posted [] q = q
run_posted (work ∷ rest) q = perform work (record q { posted = rest })

-- `Lease::reset` of a lease that a handler has.
unfoldable pub drop_lease : Queue → Queue
drop_lease q = if ltb 0 q.holders then release (record q { holders = q.holders - 1 }) else q

pub data Event : Type 0 where
  acquires : ℕ → StopToken → Event
  stops : ℕ → Event
  runs drops_lease : Event

unfoldable pub step : Event → Queue → Queue
step (acquires h stop) q = acquire h stop q
step (stops id) q = notify_stop id q
step runs q = run_posted q.posted q
step drops_lease q = drop_lease q

unfoldable pub run : List Event → Queue → Queue
run [] q = q
run (e ∷ es) q = run es (step e q)
