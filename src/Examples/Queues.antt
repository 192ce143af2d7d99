-- ===== src/Examples/Queues.antt =====
-- Runs of the program of Base/Mutex/producer_consumer_fixed.cpp.
use cpp_web_server.Base.{ℕ, zero, suc, ◌≡◌, refl, List, [], ◌∷◌, ◌++◌, times}
use cpp_web_server.SafeQueue.{push, pop, stop, get_size}
use cpp_web_server.SafeQueue.System.{
  popping, processing, returned, start, producer_round, consumer_round, Thread, producer_thread,
  consumer_thread, main_thread, step, steps,
}
use cpp_web_server.SafeQueue.Ends.{all_items}
use cpp_web_server.SafeQueue.Ends.{steps_handled}
use cpp_web_server.SafeQueue.Progress.{Returns, steps-Returns}

-- A producer makes all its items, each of which a consumer takes and handles, and ends.
abbrev relays : ℕ → ℕ → List Thread
relays k zero = producer_thread k 0 ∷ []
relays k (suc n) = producer_thread k 0 ∷ consumer_thread k 0 ∷ consumer_thread k 0 ∷ relays k n

abbrev whole_order : List Thread
whole_order =
    relays 0 6
    ++ relays 1 8
    ++ relays 2 5
    ++ main_thread
      ∷ main_thread
      ∷ consumer_thread 0 0
      ∷ consumer_thread 1 0
      ∷ consumer_thread 2 0
      ∷ main_thread
      ∷ []

whole_order-returned : (steps whole_order start).main_phase ≡ returned
unfolding steps step producer_round consumer_round push pop stop get_size
whole_order-returned = refl

steps_handled_example :
    ((steps whole_order start).task_queue.queue_ ≡ [])
    × ((v : ℕ) → times v (steps whole_order start).handled ≡ times v all_items)
steps_handled_example = steps_handled whole_order whole_order-returned

-- The first producer fills the queue and waits.
abbrev full_order : List Thread
full_order =
    producer_thread 0 0
    ∷ producer_thread 0 0
    ∷ producer_thread 0 0
    ∷ producer_thread 0 0
    ∷ producer_thread 0 0
    ∷ producer_thread 0 0
    ∷ main_thread
    ∷ []

full_order-full : get_size (steps full_order start).task_queue ≡ 5
unfolding steps step producer_round consumer_round push pop stop get_size
full_order-full = refl

steps-Returns_example : Returns full_order
steps-Returns_example = steps-Returns full_order

-- A consumer waits for an item, and the producer's push wakes it.
test_wakes :
    (steps (consumer_thread 1 0 ∷ producer_thread 0 1 ∷ consumer_thread 1 0 ∷ []) start).consumers
    ≡ popping 0 ∷ processing 1000 0 ∷ popping 0 ∷ []
unfolding steps step producer_round consumer_round push pop
test_wakes = refl
