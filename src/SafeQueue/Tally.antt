-- ===== src/SafeQueue/Tally.antt =====
-- Base/Mutex/producer_consumer_fixed.cpp: the items that are yet to come, queued, at work or handled,
-- counted over the steps of the producers and the consumers.
use cpp_web_server.Base.{
  ℕ, zero, suc, ◌+◌, ◌*◌, ◌-◌, ◌<◌, ◌≤◌, ◌≡◌, refl, ap, false, some, List, [], ◌∷◌, ◌++◌, get_elem?,
  set, if◌then◌else◌, times, times-append, arith,
}
use cpp_web_server.SafeQueue.{
  SafeQueue, Notify, notify_one_not_empty, notify_one_not_full, notify_all_not_empty,
  notify_all_not_full,
}
use cpp_web_server.SafeQueue.System.{
  Producer, Consumer, popping, sleeping, processing, ended, System, item_of, notify, is_sleeping,
  awake_consumer, awake_producer,
}
use cpp_web_server.SafeQueue.Wakes.{wake_one-Woken, sum_of-Woken, sum_of-wake_all}
use cpp_web_server.SafeQueue.Rounds.{
  sum_of, sum_of-set, grown, Produces, producer_round-Produces, Consumes, consumer_round-Consumes,
}
use cpp_web_server.SafeQueue.Rounds

-- The items of the producer `id` from its `i`th on.
abbrev pub items_from : ℕ → ℕ → ℕ → List ℕ
items_from id i zero = []
items_from id i (suc n) = (id * 1000 + i) ∷ items_from id (suc i) n

-- How often a producer will still produce `v`, and how often a consumer is at work on it.
abbrev pub to_come : ℕ → Producer → ℕ
to_come v p = if p.finished then 0 else times v (items_from p.id p.i (p.num_items - p.i))

abbrev pub at_work : ℕ → Consumer → ℕ
at_work v (processing item count) = times v (item ∷ [])
at_work v _ = 0

abbrev pub tally : ℕ → System → ℕ
tally v s =
    times v s.handled
    + sum_of (at_work v) s.consumers
    + times v s.task_queue.queue_
    + sum_of (to_come v) s.producers

to_come_next :
    (v : ℕ) (p : Producer)
    → p.finished ≡ false
    → p.i < p.num_items
    → to_come v p ≡ times v (item_of p ∷ []) + to_come v (record p { i = suc p.i })
to_come_next v p f h =
    let left : p.num_items - p.i ≡ suc (p.num_items - suc p.i) = omega arith in
    rw (f, left) (ground arith)

to_come_last : (v : ℕ) (p : Producer) → p.num_items ≤ p.i → to_come v p ≡ 0
to_come_last v p h = let left : p.num_items - p.i ≡ 0 = omega arith in rw left (ground arith)

pub produced_tally :
    (v k : ℕ) (p : Producer) (s : System) {p' : Producer} {q : SafeQueue ℕ} {notes : List Notify}
    → get_elem? s.producers k ≡ some p
    → p.finished ≡ false
    → Produces p s.task_queue (p', q, notes)
    → tally v (record s { producers = set s.producers k p'; task_queue = q }) ≡ tally v s
produced_tally v k p s {p'} e f (Rounds.ends h) =
    omega (arith, sum_of-set (to_come v) s.producers k p p' e, to_come_last v p h)
produced_tally v k p s {p'} e f (Rounds.adds h) = omega (
  arith,
  sum_of-set (to_come v) s.producers k p p' e,
  to_come_next v p f h,
  times-append v s.task_queue.queue_ (item_of p ∷ []),
)
produced_tally v k p s {p'} e f (Rounds.waits h w) =
    omega (arith, sum_of-set (to_come v) s.producers k p p' e)

consumed_once :
    (v : ℕ) (q : SafeQueue ℕ) (c : Consumer) {c' : Consumer} {q' : SafeQueue ℕ}
    {notes : List Notify} {items : List ℕ}
    → Consumes q c (c', q', notes, items)
    → times v items + at_work v c' + times v q'.queue_ ≡ at_work v c + times v q.queue_
consumed_once v q c (Rounds.takes item rest u) = ground (arith, ap (times v) u)
consumed_once v q c (Rounds.leaves u b) = omega arith
consumed_once v q c (Rounds.idles u b) = omega arith
consumed_once v q c Rounds.handles = omega arith
consumed_once v q c Rounds.sleeps = omega arith
consumed_once v q c Rounds.stays = omega arith

abbrev pub after_consumer : ℕ → System → Consumer × SafeQueue ℕ × List Notify × List ℕ → System
after_consumer k s (c, q, notes, items) = record s {
  consumers = set s.consumers k c;
  task_queue = q;
  handled = s.handled ++ items;
}

pub consumed_tally :
    (v k : ℕ) (c : Consumer) (s : System) {c' : Consumer} {q : SafeQueue ℕ} {notes : List Notify}
    {items : List ℕ}
    → get_elem? s.consumers k ≡ some c
    → Consumes s.task_queue c (c', q, notes, items)
    → tally v (after_consumer k s (c', q, notes, items)) ≡ tally v s
consumed_tally v k c s {c' = c'} {items = items} e r = omega (
  arith,
  sum_of-set (at_work v) s.consumers k c c' e,
  times-append v s.handled items,
  consumed_once v s.task_queue c r,
)

abbrev pub after_producer : ℕ → System → Producer × SafeQueue ℕ × List Notify → System
after_producer k s (p, q, notes) = record s { producers = set s.producers k p; task_queue = q }

pub awake_at_work : (v : ℕ) (c : Consumer) → at_work v (awake_consumer c) ≡ at_work v c
awake_at_work v (popping n) = refl
awake_at_work v (sleeping n) = refl
awake_at_work v (processing item n) = refl
awake_at_work v (ended n) = refl

-- A notification moves no item.
pub tally-notify :
    (v choice : ℕ) (n : Notify) (s : System) → tally v (notify choice n s) ≡ tally v s
tally-notify v choice notify_one_not_empty s =
    let w = wake_one-Woken is_sleeping awake_consumer choice s.consumers in
    omega
      (arith, sum_of-Woken is_sleeping awake_consumer (at_work v) s.consumers _ (awake_at_work v) w)
tally-notify v choice notify_one_not_full s =
    let w = wake_one-Woken Producer.waiting awake_producer choice s.producers in
    omega
      (arith, sum_of-Woken Producer.waiting awake_producer (to_come v) s.producers _ (λ p. refl) w)
tally-notify v choice notify_all_not_empty s =
    omega
      (arith, sum_of-wake_all is_sleeping awake_consumer (at_work v) s.consumers (awake_at_work v))
tally-notify v choice notify_all_not_full s =
    omega
      (arith, sum_of-wake_all Producer.waiting awake_producer (to_come v) s.producers (λ p. refl))
