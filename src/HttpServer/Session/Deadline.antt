-- ===== src/HttpServer/Session/Deadline.antt =====
-- The deadline of a handler.
use vacps.Prelude.{
  ℕ, zero, suc, ◌≡◌, refl, List, [], ◌∷◌, ◌++◌, Bool, true, false, none, some, ltb, if◌then◌else◌,
  if_true, ap, ◌∙◌, lt→ltb, arith,
}
use vacps.HttpServer.Session.{
  Answer, fails, etimedout, Box, new_box, BoxEvent, returns, throws, timer_fires, box_step,
  handler_result,
}

unfoldable pub box_run : List BoxEvent → Box → Box
box_run [] b = b
box_run (e ∷ es) b = box_run es (box_step e b)

unfoldable pub timers : ℕ → List BoxEvent
timers zero = []
timers (suc n) = timer_fires ∷ timers n

-- How the handler's coroutine ends.
pub data End : Type 0 where
  end_returns : Answer → End
  end_throws : End

abbrev pub end_event : End → BoxEvent
end_event (end_returns a) = returns a
end_event end_throws = throws

abbrev pub own_answer : End → Answer
own_answer (end_returns a) = a
own_answer end_throws = fails 0

timer_done : (b : Box) → b.done ≡ true → box_step timer_fires b ≡ b
unfolding box_step
timer_done b h = if_true (λ (q : Box). q ≡ b) b.done _ _ h refl

timers_done : (n : ℕ) (b : Box) → b.done ≡ true → box_run (timers n) b ≡ b
unfolding box_run timers
timers_done zero b h = refl
timers_done (suc n) b h = ap (box_run (timers n)) (timer_done b h) ∙ timers_done n b h

timers_late :
    (n : ℕ) (rest : List BoxEvent)
    → box_run (timers n ++ rest) (record new_box { timed_out = true })
      ≡ box_run rest (record new_box { timed_out = true })
unfolding box_run timers box_step
timers_late zero rest = refl
timers_late (suc n) rest = timers_late n rest

fired :
    (n : ℕ) (rest : List BoxEvent)
    → box_run (timers (suc n) ++ rest) new_box ≡ box_run rest (record new_box { timed_out = true })
unfolding box_run timers box_step
fired n rest = timers_late n rest

after_end :
    (end : End) (late : Bool) (m : ℕ)
    → handler_result (box_run (end_event end ∷ timers m) (record new_box { timed_out = late }))
      ≡ (if late then fails etimedout else own_answer end)
unfolding box_run box_step handler_result
after_end (end_returns a) true m =
    ap handler_result
      (timers_done m (record { out = some a; ep = false; done = true; timed_out = true }) refl)
after_end (end_returns a) false m =
    ap handler_result
      (timers_done m (record { out = some a; ep = false; done = true; timed_out = false }) refl)
after_end end_throws true m =
    ap handler_result
      (timers_done m (record { out = none; ep = true; done = true; timed_out = true }) refl)
after_end end_throws false m =
    ap handler_result
      (timers_done m (record { out = none; ep = true; done = true; timed_out = false }) refl)

-- However often the timer fires, the request is answered by a time-out exactly if it fired before
-- the handler ended, and by the handler's own answer else, where an exception is an error.
pub handler_result-deadline :
    (n m : ℕ) (end : End)
    → handler_result (box_run (timers n ++ end_event end ∷ timers m) new_box)
      ≡ (if ltb 0 n then fails etimedout else own_answer end)
unfolding timers
handler_result-deadline zero m end = after_end end false m
handler_result-deadline (suc n) m end =
    rw (lt→ltb 0 (suc n) (omega arith))
      (ap handler_result (fired n (end_event end ∷ timers m)) ∙ after_end end true m)
