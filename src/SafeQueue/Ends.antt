-- ===== src/SafeQueue/Ends.antt =====
-- Base/Mutex/producer_consumer_fixed.cpp: in every order of the threads' steps, what the producers
-- have produced is kept, and nothing is left when `main` returns.
use cpp_web_server.Base.{
  ℕ, ◌≡◌, refl, ap, subst, true, List, [], ◌∷◌, ◌++◌, times, times-append, arith,
}
use cpp_web_server.SafeQueue.System.{
  Producer, Consumer, popping, sleeping, processing, ended, returned, System, start, all_finished,
  all_ended, Thread, steps,
}
use cpp_web_server.SafeQueue.Rounds.{sum_of}
use cpp_web_server.SafeQueue.Tally.{items_from, to_come, at_work, tally}
use cpp_web_server.SafeQueue.Kept.{IsPhase, IsKept, steps-IsKept, start-IsKept}

none_to_come : (v : ℕ) (ps : List Producer) → all_finished ps ≡ true → sum_of (to_come v) ps ≡ 0
none_to_come v [] a = refl
none_to_come v (p ∷ ps) a = ground (arith, a, none_to_come v ps)

none_at_work : (v : ℕ) (cs : List Consumer) → all_ended cs ≡ true → sum_of (at_work v) cs ≡ 0
none_at_work v [] a = refl
none_at_work v (ended n ∷ cs) a = omega (arith, none_at_work v cs a)
none_at_work v (popping n ∷ cs) a = absurd (ground arith)
none_at_work v (sleeping n ∷ cs) a = absurd (ground arith)
none_at_work v (processing item n ∷ cs) a = absurd (ground arith)

-- The items of the three producers of `main`.
abbrev pub all_items : List ℕ
all_items = items_from 1 0 6 ++ items_from 2 0 8 ++ items_from 3 0 5

tally-start : (v : ℕ) → tally v start ≡ times v all_items
tally-start v = omega (
  arith,
  times-append v (items_from 1 0 6) (items_from 2 0 8 ++ items_from 3 0 5),
  times-append v (items_from 2 0 8) (items_from 3 0 5),
)

-- In whatever order the threads take their steps: once `main` has returned, the queue is empty, and
-- the consumers have processed every item of the three producers exactly as often as it was to be
-- produced, which is once, and no other.
pub steps_handled :
    (order : List Thread)
    → (steps order start).main_phase ≡ returned
    → ((steps order start).task_queue.queue_ ≡ [])
      × ((v : ℕ) → times v (steps order start).handled ≡ times v all_items)
steps_handled order e = go (steps order start) e (steps-IsKept order start start-IsKept)
  where
    go :
        (s : System)
        → s.main_phase ≡ returned
        → IsKept s
        → (s.task_queue.queue_ ≡ []) × ((v : ℕ) → times v s.handled ≡ times v all_items)
    go s e i =
        let j : IsPhase returned s = subst (λ m. IsPhase m s) e i.in_phase in
        (
          j.0,
          λ v. omega (
            arith,
            i.conserved v,
            tally-start v,
            ap (times v) j.0,
            none_at_work v s.consumers j.2,
            none_to_come v s.producers j.1,
          ),
        )
