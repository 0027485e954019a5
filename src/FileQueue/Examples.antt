-- ===== src/FileQueue/Examples.antt =====
-- Tests of the model of the file queue, and the theorems at concrete inputs.
use mathlib.Core.List.{Sublist}
use vacps.Prelude.{◌+◌, ◌≡◌, refl, List, [], ◌∷◌, ◌++◌, true, false, length}
use vacps.FileQueue.{
  Queue, new_queue, StopToken, Event, acquires, stops, runs, drops_lease, run, step, acquire,
  acquire_free, enqueue, arm_stop, push_waiter, post, notify_stop, has_stop, cancel_waiter,
  find_waiter, perform, drop_lease, release,
}
use vacps.FileQueue.Leases.{IsExclusive, run-IsExclusive, new_queue-IsExclusive}
use vacps.FileQueue.Once.{tally, asked, run-tally}
use vacps.FileQueue.Order.{arrivals, granted-Sublist}
use vacps.FileQueue.Drain.{IsServed, cycles, run-IsServed}
use vacps.FileQueue.Laws.{waiting}

abbrev no_stop : StopToken
no_stop = record { possible = true; requested = false; notified = false }

-- Three acquires; the second is stopped while it waits.
abbrev contended : List Event
contended =
    acquires 7 no_stop ∷ acquires 8 no_stop ∷ acquires 9 no_stop ∷ runs ∷ stops 1 ∷ runs ∷ runs ∷ []

abbrev contended_queue : Queue
contended_queue = run contended new_queue

served_order : (run (drops_lease ∷ runs ∷ []) contended_queue).granted ≡ 7 ∷ 9 ∷ []
unfolding run step acquire acquire_free enqueue arm_stop push_waiter post notify_stop has_stop
    cancel_waiter find_waiter perform drop_lease release
served_order = refl

stopped_waiter : contended_queue.aborted ≡ 8 ∷ []
unfolding run step acquire acquire_free enqueue arm_stop push_waiter post notify_stop has_stop
    cancel_waiter find_waiter perform drop_lease release
stopped_waiter = refl

run-IsExclusive_example : IsExclusive contended_queue
run-IsExclusive_example = run-IsExclusive contended new_queue new_queue-IsExclusive

run-tally_example : tally 8 contended_queue ≡ tally 8 new_queue + asked 8 contended
run-tally_example = run-tally 8 contended new_queue

granted-Sublist_example : Sublist contended_queue.granted (arrivals contended)
granted-Sublist_example = granted-Sublist contended

run-IsServed_example :
    IsServed
      (contended_queue.granted ++ waiting contended_queue.waiters)
      (run (cycles (length contended_queue.waiters)) contended_queue)
unfolding run step acquire acquire_free enqueue arm_stop push_waiter post notify_stop has_stop
    cancel_waiter find_waiter perform drop_lease release
run-IsServed_example = run-IsServed contended_queue refl refl refl
