-- ===== src/SafeQueue/System.antt =====
-- Base/Mutex/producer_consumer_fixed.cpp: the producers, the consumers and `main`, with the threads that
-- wait on the two condition variables. A step is what one thread does up to its next call of the queue,
-- or up to where a call waits; the times that the threads sleep are left out.
use cpp_web_server.Base.{
  ℕ, suc, ◌+◌, ◌*◌, ◌==◌, Bool, true, false, Option, none, some, List, [], ◌∷◌, ◌++◌, ltb,
  get_elem?, set, if◌then◌else◌,
}
use cpp_web_server.SafeQueue.{
  SafeQueue, new_queue, push, pop, stop, get_size, Notify, notify_one_not_empty,
  notify_one_not_full, notify_all_not_empty, notify_all_not_full, Pushed, push_waits, push_refused,
  pushed, Popped, pop_waits, pop_refused, popped,
}

-- `producer(id, num_items)` before its `i`th round, or past its loop; `waiting` where it waits on
-- `not_full` in that round.
pub record Producer : Type 0 where
  pub id : ℕ
  pub num_items : ℕ
  pub i : ℕ
  pub waiting : Bool
  pub finished : Bool

-- `consumer`, at its call of `pop`, waiting on `not_empty` in it, at work on an item, or past its loop;
-- with its `count`.
pub data Consumer : Type 0 where
  popping sleeping : ℕ → Consumer
  processing : ℕ → ℕ → Consumer
  ended : ℕ → Consumer

pub data MainPhase : Type 0 where
  joins_producers awaits_empty joins_consumers returned : MainPhase

-- The program, with the items that the consumers have processed.
pub record System : Type 0 where
  pub task_queue : SafeQueue ℕ
  pub producers : List Producer
  pub consumers : List Consumer
  pub main_phase : MainPhase
  pub handled : List ℕ

abbrev pub new_producer : ℕ → ℕ → Producer
new_producer id num_items = record {
  id = id;
  num_items = num_items;
  i = 0;
  waiting = false;
  finished = false;
}

-- `main` up to its first `join`.
abbrev pub start : System
start = record {
  task_queue = new_queue 5;
  producers = new_producer 1 6 ∷ new_producer 2 8 ∷ new_producer 3 5 ∷ [];
  consumers = popping 0 ∷ popping 0 ∷ popping 0 ∷ [];
  main_phase = joins_producers;
  handled = [];
}

abbrev pub awake_producer : Producer → Producer
awake_producer p = record p { waiting = false }

abbrev pub awake_consumer : Consumer → Consumer
awake_consumer (sleeping count) = popping count
awake_consumer c = c

abbrev pub is_sleeping : Consumer → Bool
is_sleeping (sleeping _) = true
is_sleeping _ = false

module _ {A : Type 0} (waits : A → Bool) (awake : A → A) where
  -- `notify_all`.
  abbrev pub wake_all : List A → List A
  wake_all [] = []
  wake_all (x ∷ xs) = (if waits x then awake x else x) ∷ wake_all xs

  abbrev pub wake_first : List A → List A
  wake_first [] = []
  wake_first (x ∷ xs) = let rest = wake_first xs in if waits x then awake x ∷ xs else x ∷ rest

  abbrev pub wake_if : ℕ → Option A → List A → List A
  wake_if k none xs = wake_first xs
  wake_if k (some x) xs = if waits x then set xs k (awake x) else wake_first xs

  -- `notify_one`: the `k`th thread where it waits, and the first one that waits where it does not.
  abbrev pub wake_one : ℕ → List A → List A
  wake_one k xs = wake_if k (get_elem? xs k) xs

abbrev pub wake_producer : ℕ → List Producer → List Producer
wake_producer = wake_one Producer.waiting awake_producer

abbrev pub wake_consumer : ℕ → List Consumer → List Consumer
wake_consumer = wake_one is_sleeping awake_consumer

-- What a notification does, with the thread that is chosen.
abbrev pub notify : ℕ → Notify → System → System
notify k notify_one_not_empty s = record s { consumers = wake_consumer k s.consumers }
notify k notify_one_not_full s = record s { producers = wake_producer k s.producers }
notify k notify_all_not_empty s = record s {
  consumers = wake_all is_sleeping awake_consumer s.consumers;
}
notify k notify_all_not_full s = record s {
  producers = wake_all Producer.waiting awake_producer s.producers;
}

abbrev pub notify_each : ℕ → List Notify → System → System
notify_each k [] s = s
notify_each k (n ∷ notes) s = notify_each k notes (notify k n s)

abbrev pub item_of : Producer → ℕ
item_of p = p.id * 1000 + p.i

abbrev pub after_push : Pushed ℕ → Producer → SafeQueue ℕ → Producer × SafeQueue ℕ × List Notify
after_push push_waits p q = (record p { waiting = true }, q, [])
after_push push_refused p q = (record p { finished = true }, q, [])
after_push (pushed q' notes) p q = (record p { i = suc p.i }, q', notes)

-- A round of the loop of `producer`.
unfoldable pub producer_round : Producer → SafeQueue ℕ → Producer × SafeQueue ℕ × List Notify
unfolding push
producer_round p q =
    if ltb p.i p.num_items
    then after_push (push (item_of p) q) p q
    else (record p { finished = true }, q, [])

abbrev pub after_pop : Popped ℕ → ℕ → SafeQueue ℕ → Consumer × SafeQueue ℕ × List Notify
after_pop pop_waits count q = (sleeping count, q, [])
after_pop pop_refused count q = (ended count, q, [])
after_pop (popped item q' notes) count q = (processing item count, q', notes)

-- A call of `pop`, or the work behind it: the consumer, the queue, the notifications and the items
-- processed.
unfoldable pub consumer_round :
    Consumer → SafeQueue ℕ → Consumer × SafeQueue ℕ × List Notify × List ℕ
unfolding pop
consumer_round (popping count) q =
    let (c, q', notes) = after_pop (pop q) count q in (c, q', notes, [])
consumer_round (sleeping count) q = (sleeping count, q, [], [])
consumer_round (processing item count) q = (popping (suc count), q, [], item ∷ [])
consumer_round (ended count) q = (ended count, q, [], [])

abbrev pub all_finished : List Producer → Bool
all_finished [] = true
all_finished (p ∷ ps) = if p.finished then all_finished ps else false

abbrev pub is_ended : Consumer → Bool
is_ended (ended _) = true
is_ended _ = false

abbrev pub all_ended : List Consumer → Bool
all_ended [] = true
all_ended (c ∷ cs) = if is_ended c then all_ended cs else false

abbrev pub stopped_by : SafeQueue ℕ × List Notify → System → System
stopped_by (q, notes) s =
    notify_each 0 notes (record s { main_phase = joins_consumers; task_queue = q })

-- A step of `main`: a `join` that has all its threads, a look at the size, the stop.
abbrev pub main_round : MainPhase → System → System
main_round joins_producers s =
    if all_finished s.producers then (record s { main_phase = awaits_empty }) else s
main_round awaits_empty s =
    if get_size s.task_queue == 0 then stopped_by (stop s.task_queue) s else s
main_round joins_consumers s =
    if all_ended s.consumers then (record s { main_phase = returned }) else s
main_round returned s = s

-- A turn of a thread, with the choice of the thread that its notification wakes; or a thread that
-- waits wakes by itself, as a condition variable allows.
pub data Thread : Type 0 where
  producer_thread consumer_thread : ℕ → ℕ → Thread
  main_thread : Thread
  producer_wakes consumer_wakes : ℕ → Thread

abbrev pub produced : ℕ → ℕ → Producer × SafeQueue ℕ × List Notify → System → System
produced k choice (p, q, notes) s =
    notify_each choice notes (record s { producers = set s.producers k p; task_queue = q })

abbrev pub produce_at : ℕ → ℕ → Option Producer → System → System
produce_at k choice none s = s
produce_at k choice (some p) s =
    if p.finished
    then s
    else if p.waiting
    then s
    else produced k choice (producer_round p s.task_queue) s

abbrev pub consumed : ℕ → ℕ → Consumer × SafeQueue ℕ × List Notify × List ℕ → System → System
consumed k choice (c, q, notes, items) s =
    notify_each choice notes
      (record s { consumers = set s.consumers k c; task_queue = q; handled = s.handled ++ items })

abbrev pub consume_at : ℕ → ℕ → Option Consumer → System → System
consume_at k choice none s = s
consume_at k choice (some c) s = consumed k choice (consumer_round c s.task_queue) s

abbrev pub wakes_producer : ℕ → Option Producer → System → System
wakes_producer k none s = s
wakes_producer k (some p) s = record s { producers = set s.producers k (awake_producer p) }

abbrev pub wakes_consumer : ℕ → Option Consumer → System → System
wakes_consumer k none s = s
wakes_consumer k (some c) s = record s { consumers = set s.consumers k (awake_consumer c) }

unfoldable pub step : Thread → System → System
step (producer_thread k choice) s = produce_at k choice (get_elem? s.producers k) s
step (consumer_thread k choice) s = consume_at k choice (get_elem? s.consumers k) s
step main_thread s = main_round s.main_phase s
step (producer_wakes k) s = wakes_producer k (get_elem? s.producers k) s
step (consumer_wakes k) s = wakes_consumer k (get_elem? s.consumers k) s

unfoldable pub steps : List Thread → System → System
steps [] s = s
steps (t ∷ rest) s = steps rest (step t s)
