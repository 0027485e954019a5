-- ===== src/FileQueue/Drain.antt =====
-- No wakeup of the queue is lost: when each holder drops its lease, all that wait are served.
use vacps.Prelude.{
  ℕ, zero, suc, ◌≡◌, refl, sym, subst, List, [], ◌∷◌, ◌++◌, append-nil, append_assoc, true, false,
  length,
}
use vacps.FileQueue.{
  Entry, Queue, post, release, perform, drop_lease, Event, runs, drops_lease, step, run,
}
use vacps.FileQueue.Laws.{waiting}

-- Every holder drops its lease, and the executor runs the completion of the next.
unfoldable pub cycles : ℕ → List Event
cycles zero = drops_lease ∷ []
cycles (suc n) = drops_lease ∷ runs ∷ cycles n

abbrev held_by_one : ℕ → List Entry → List ℕ → List ℕ → Queue
held_by_one next_id waiters granted aborted = record {
  leased = true;
  next_id = next_id;
  waiters = waiters;
  posted = [];
  holders = 1;
  granted = granted;
  aborted = aborted;
}

pub record IsServed (handlers : List ℕ) (q : Queue) : Type 0 where
  pub in_order : q.granted ≡ handlers
  pub unleased : q.leased ≡ false
  pub none_waits : q.waiters ≡ []
  pub none_posted : q.posted ≡ []

held-IsServed :
    (n : ℕ) (es : List Entry) (granted aborted : List ℕ)
    → IsServed (granted ++ waiting es) (run (cycles (length es)) (held_by_one n es granted aborted))
unfolding run cycles step drop_lease release post perform waiting
held-IsServed n [] granted aborted = record {
  in_order = sym (append-nil granted);
  unleased = refl;
  none_waits = refl;
  none_posted = refl;
}
held-IsServed n (e ∷ es) granted aborted =
    subst
      (λ (hs : List ℕ).
        IsServed hs
          (run (cycles (length es)) (held_by_one n es (granted ++ e.complete ∷ []) aborted)))
      (append_assoc granted (e.complete ∷ []) (waiting es))
      (held-IsServed n es (granted ++ e.complete ∷ []) aborted)

-- Where one handler has the lease and no work is posted, as many rounds as handlers wait serve
-- them all in the order of the queue, and one more leaves the queue free and empty.
pub run-IsServed :
    (q : Queue)
    → q.leased ≡ true
    → q.posted ≡ []
    → q.holders ≡ 1
    → IsServed (q.granted ++ waiting q.waiters) (run (cycles (length q.waiters)) q)
run-IsServed q l p h =
    let same : held_by_one q.next_id q.waiters q.granted q.aborted ≡ q = λ i. record {
      leased = sym l i;
      next_id = q.next_id;
      waiters = q.waiters;
      posted = sym p i;
      holders = sym h i;
      granted = q.granted;
      aborted = q.aborted;
    } in
    subst
      (λ (q' : Queue).
        IsServed (q.granted ++ waiting q.waiters) (run (cycles (length q.waiters)) q'))
      same (held-IsServed q.next_id q.waiters q.granted q.aborted)
