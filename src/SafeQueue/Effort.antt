-- ===== src/SafeQueue/Effort.antt =====
-- Base/Mutex/producer_consumer_fixed.cpp: the rounds of the threads against a measure of what is left.
use cpp_web_server.Base.{
  ℕ, zero, suc, ◌+◌, ◌*◌, ◌-◌, ◌<◌, ◌≡◌, refl, ap, ◌∙◌, inl, inr, true, false, some, List, [], ◌∷◌,
  length, length-append, get_elem?, if◌then◌else◌, Bool-cases, ltb, arith,
}
use cpp_web_server.SafeQueue.{
  SafeQueue, Notify, notify_one_not_empty, notify_one_not_full, notify_all_not_empty,
  notify_all_not_full,
}
use cpp_web_server.SafeQueue.System.{
  Producer, Consumer, popping, sleeping, processing, ended, MainPhase, joins_producers,
  awaits_empty, joins_consumers, returned, System, item_of, producer_round, consumer_round,
  is_ended, all_ended, producer_thread, consumer_thread, produce_at, consume_at, step, notify,
  notify_each, produced, consumed, is_sleeping, awake_consumer, awake_producer,
}
use cpp_web_server.SafeQueue.Rounds.{
  sum_of, sum_of-set, grown, Produces, producer_round-Produces, Consumes, consumer_round-Consumes,
}
use cpp_web_server.SafeQueue.Rounds
use cpp_web_server.SafeQueue.Wakes.{wake_one-Woken, sum_of-Woken, sum_of-wake_all}
use cpp_web_server.SafeQueue.Tally.{after_consumer, after_producer}

abbrev pub produce_effort : Producer → ℕ
produce_effort p = if p.finished then 0 else suc (3 * (p.num_items - p.i))

abbrev pub consume_effort : Consumer → ℕ
consume_effort (popping count) = 1
consume_effort (sleeping count) = 1
consume_effort (processing item count) = 2
consume_effort (ended count) = 0

abbrev pub main_effort : MainPhase → ℕ
main_effort joins_producers = 3
main_effort awaits_empty = 2
main_effort joins_consumers = 1
main_effort returned = 0

-- More than the rounds that are left.
abbrev pub effort : System → ℕ
effort s =
    sum_of produce_effort s.producers
    + 2 * length s.task_queue.queue_
    + sum_of consume_effort s.consumers
    + main_effort s.main_phase

awake_effort : (c : Consumer) → consume_effort (awake_consumer c) ≡ consume_effort c
awake_effort (popping n) = refl
awake_effort (sleeping n) = refl
awake_effort (processing item n) = refl
awake_effort (ended n) = refl

-- A notification leaves as much to do.
effort-notify : (choice : ℕ) (n : Notify) (s : System) → effort (notify choice n s) ≡ effort s
effort-notify choice notify_one_not_empty s =
    let w = wake_one-Woken is_sleeping awake_consumer choice s.consumers in
    omega
      (arith, sum_of-Woken is_sleeping awake_consumer consume_effort s.consumers _ awake_effort w)
effort-notify choice notify_one_not_full s =
    let w = wake_one-Woken Producer.waiting awake_producer choice s.producers in
    omega (
      arith,
      sum_of-Woken Producer.waiting awake_producer produce_effort s.producers _ (λ p. refl) w,
    )
effort-notify choice notify_all_not_empty s =
    omega
      (arith, sum_of-wake_all is_sleeping awake_consumer consume_effort s.consumers awake_effort)
effort-notify choice notify_all_not_full s =
    omega (
      arith,
      sum_of-wake_all Producer.waiting awake_producer produce_effort s.producers (λ p. refl),
    )

pub effort-notify_each :
    (choice : ℕ) (notes : List Notify) (s : System) → effort (notify_each choice notes s) ≡ effort s
effort-notify_each choice [] s = refl
effort-notify_each choice (n ∷ notes) s =
    effort-notify_each choice notes (notify choice n s) ∙ effort-notify choice n s

step_producer :
    (k : ℕ) (s : System) (p : Producer)
    → get_elem? s.producers k ≡ some p
    → p.finished ≡ false
    → p.waiting ≡ false
    → step (producer_thread k 0) s ≡ produced k 0 (producer_round p s.task_queue) s
unfolding step
step_producer k s p e f w =
    let t = produced k 0 (producer_round p s.task_queue) s in
    ap (λ o. produce_at k 0 o s) e
    ∙ ap (λ b. if b then s else if p.waiting then s else t) f
    ∙ ap (λ b. if b then s else t) w

step_consumer :
    (k : ℕ) (s : System) (c : Consumer)
    → get_elem? s.consumers k ≡ some c
    → step (consumer_thread k 0) s ≡ consumed k 0 (consumer_round c s.task_queue) s
unfolding step
step_consumer k s c e = ap (λ o. consume_at k 0 o s) e

-- A round of a producer is progress, unless the queue is full.
after_producer_less :
    (k : ℕ) (s : System) (p : Producer) {r : Producer × SafeQueue ℕ × List Notify}
    → get_elem? s.producers k ≡ some p
    → p.finished ≡ false
    → length s.task_queue.queue_ < s.task_queue.max_size
    → Produces p s.task_queue r
    → effort (after_producer k s r) < effort s
after_producer_less k s p e f l (Rounds.ends h) =
    let m = sum_of-set produce_effort s.producers k p (record p { finished = true }) e in
    ground (arith, m, f)
after_producer_less k s p e f l (Rounds.adds h) =
    let m = sum_of-set produce_effort s.producers k p (record p { i = suc p.i }) e in
    ground (arith, m, f, length-append s.task_queue.queue_ (item_of p ∷ []))
after_producer_less k s p e f l (Rounds.waits h w) = absurd (omega (arith, l, w))

-- A round of a consumer is progress, unless it has ended, or sleeps, or goes to sleep.
after_consumer_less :
    (k : ℕ) (s : System) (c : Consumer) {r : Consumer × SafeQueue ℕ × List Notify × List ℕ}
    → get_elem? s.consumers k ≡ some c
    → is_ended c ≡ false
    → is_sleeping c ≡ false
    → (s.task_queue.queue_ ≡ [] → s.task_queue.stop_ ≡ true)
    → Consumes s.task_queue c r
    → effort (after_consumer k s r) < effort s
after_consumer_less k s c {r = (c', q, notes, items)} e a z n (Rounds.takes item rest u) =
    omega (arith, sum_of-set consume_effort s.consumers k c c' e, ap length u)
after_consumer_less k s c {r = (c', q, notes, items)} e a z n (Rounds.leaves u b) =
    omega (arith, sum_of-set consume_effort s.consumers k c c' e)
after_consumer_less k s c e a z n (Rounds.idles u b) = absurd (ground (arith, n u, b))
after_consumer_less k s c {r = (c', q, notes, items)} e a z n Rounds.handles =
    omega (arith, sum_of-set consume_effort s.consumers k c c' e)
after_consumer_less k s c e a z n Rounds.sleeps = absurd (ground arith)
after_consumer_less k s c e a z n Rounds.stays = absurd (ground arith)

pub producer_less :
    (k : ℕ) (s : System) (p : Producer)
    → get_elem? s.producers k ≡ some p
    → p.finished ≡ false
    → p.waiting ≡ false
    → s.task_queue.stop_ ≡ false
    → length s.task_queue.queue_ < s.task_queue.max_size
    → effort (step (producer_thread k 0) s) < effort s
producer_less k s p e f w live l =
    let r = producer_round p s.task_queue in
    rw (step_producer k s p e f w, effort-notify_each 0 r.2 (after_producer k s r))
      (after_producer_less k s p e f l (producer_round-Produces p s.task_queue live))

pub consumer_less :
    (k : ℕ) (s : System) (c : Consumer)
    → get_elem? s.consumers k ≡ some c
    → is_ended c ≡ false
    → is_sleeping c ≡ false
    → (s.task_queue.queue_ ≡ [] → s.task_queue.stop_ ≡ true)
    → effort (step (consumer_thread k 0) s) < effort s
consumer_less k s c e a z n =
    let r = consumer_round c s.task_queue in
    rw (step_consumer k s c e, effort-notify_each 0 r.2 (after_consumer k s r))
      (after_consumer_less k s c e a z n (consumer_round-Consumes c s.task_queue))

-- Where a sum is not 0, one of its terms is not.
pub sum_of_at :
    {A : Type 0} (f : A → ℕ) (xs : List A)
    → 0 < sum_of f xs
    → (k : ℕ) × (x : A) × (get_elem? xs k ≡ some x) × (0 < f x)
sum_of_at f [] h = absurd (omega (arith, h))
sum_of_at f (x ∷ xs) h = elim (Bool-cases (ltb 0 (f x))) [
  | inl e ↦ (zero, x, refl, ground (arith, e))
  | inr e ↦ let (k, y, g, p) = sum_of_at f xs (ground (arith, h, e)) in (suc k, y, g, p)
]

pub unended_at :
    (cs : List Consumer)
    → all_ended cs ≡ false
    → (k : ℕ) × (c : Consumer) × (get_elem? cs k ≡ some c) × (is_ended c ≡ false)
unended_at [] a = absurd (ground arith)
unended_at (c ∷ cs) a = elim (Bool-cases (is_ended c)) [
  | inl f ↦ let (k, c', e, g) = unended_at cs (ground (arith, a, f)) in (suc k, c', e, g)
  | inr f ↦ (zero, c, refl, f)
]
