-- ===== src/SafeQueue/Ready.antt =====
-- Base/Mutex/producer_consumer_fixed.cpp: no wakeup is lost. While the queue is not stopped, a queue that
-- is not empty has a consumer awake, and where a producer waits, those that are awake fill the queue.
use cpp_web_server.Base.{
  ℕ, suc, ◌+◌, ◌<◌, ◌≤◌, ◌==◌, ◌≡◌, refl, ap, ◌∙◌, Bool, true, false, Option, none, some, List, [],
  ◌∷◌, ◌++◌, length, length-append, length-set, get_elem?, set, if◌then◌else◌, arith,
}
use cpp_web_server.SafeQueue.{SafeQueue, stop, get_size, Notify}
use cpp_web_server.SafeQueue.System.{
  Producer, Consumer, popping, sleeping, processing, ended, MainPhase, joins_producers,
  awaits_empty, joins_consumers, returned, System, start, item_of, producer_round, all_finished,
  all_ended, main_round, Thread, producer_thread, consumer_thread, main_thread, producer_wakes,
  consumer_wakes, wakes_producer, wakes_consumer, produce_at, consume_at, produced, consumed,
  stopped_by, step, steps, is_sleeping, awake_producer, awake_consumer, wake_all,
}
use cpp_web_server.SafeQueue.Rounds.{
  sum_of, sum_of-set, grown, Produces, producer_round-Produces, Consumes, consumer_round-Consumes,
}
use cpp_web_server.SafeQueue.Rounds
use cpp_web_server.SafeQueue.Wakes.{
  wake_one-Woken, none_waits-wake_all, length-Woken, length-wake_all,
}
use cpp_web_server.SafeQueue.Kept.{IsKept, step-IsKept, unfinished_live}
use cpp_web_server.SafeQueue.Awake.{
  awake_one, ended_one, sleeping_one, waiting_producer, ready_one, idle_one, zero_at, awake_ended,
  awake_more, awake_sleeping, attended-Woken, ended-Woken, fed-Woken, idle-Woken, idle-waiting,
}

pub record IsReady (s : System) : Type 0 where
  pub room : 0 < s.task_queue.max_size
  pub some_consumers : 0 < length s.consumers
  pub alive : s.task_queue.stop_ ≡ false → sum_of ended_one s.consumers ≡ 0
  pub attended :
      s.task_queue.stop_ ≡ false → 0 < length s.task_queue.queue_ → 0 < sum_of awake_one s.consumers
  pub quiet : s.task_queue.stop_ ≡ true → sum_of sleeping_one s.consumers ≡ 0
  pub none_idle : sum_of idle_one s.producers ≡ 0
  pub fed :
      s.task_queue.stop_ ≡ false
      → 0 < sum_of waiting_producer s.producers
      → s.task_queue.max_size ≤ length s.task_queue.queue_ + sum_of ready_one s.producers

produced-IsReady :
    (k choice : ℕ) (s : System) (p : Producer) {r : Producer × SafeQueue ℕ × List Notify}
    → get_elem? s.producers k ≡ some p
    → p.finished ≡ false
    → p.waiting ≡ false
    → s.task_queue.stop_ ≡ false
    → IsReady s
    → Produces p s.task_queue r
    → IsReady (produced k choice r s)
produced-IsReady k choice s p e f w live i (Rounds.ends h) =
    let p' : Producer = record p { finished = true } in
    let m = sum_of-set ready_one s.producers k p p' e in
    let n = sum_of-set waiting_producer s.producers k p p' e in
    let z = sum_of-set idle_one s.producers k p p' e in
    record {
      room = i.room;
      some_consumers = i.some_consumers;
      alive = i.alive;
      attended = i.attended;
      quiet = i.quiet;
      none_idle = ground (arith, z, w, i.none_idle);
      fed = λ b g. ground (arith, i.fed b, m, n, w, f, h, g);
    }
produced-IsReady k choice s p e f w live i (Rounds.adds h) =
    let p' : Producer = record p { i = suc p.i } in
    let m = sum_of-set ready_one s.producers k p p' e in
    let n = sum_of-set waiting_producer s.producers k p p' e in
    let z = sum_of-set idle_one s.producers k p p' e in
    let u = wake_one-Woken is_sleeping awake_consumer choice s.consumers in
    record {
      room = i.room;
      some_consumers =
          omega (arith, length-Woken is_sleeping awake_consumer s.consumers _ u, i.some_consumers);
      alive = λ b. ended-Woken s.consumers _ u ∙ i.alive b;
      attended = λ b g. attended-Woken s.consumers _ i.some_consumers (i.alive b) u;
      quiet = λ b. absurd (ground (arith, b, live));
      none_idle = ground (arith, z, w, i.none_idle);
      fed = λ b g.
          ground
            (arith, i.fed b, m, n, w, f, h, g, length-append s.task_queue.queue_ (item_of p ∷ []));
    }
produced-IsReady k choice s p e f w live i (Rounds.waits h full) =
    let p' : Producer = record p { waiting = true } in
    let z = sum_of-set idle_one s.producers k p p' e in
    record {
      room = i.room;
      some_consumers = i.some_consumers;
      alive = i.alive;
      attended = i.attended;
      quiet = i.quiet;
      none_idle = ground (arith, z, w, f, h, i.none_idle);
      fed = λ b g. omega (arith, full);
    }

-- A consumer in the place of another, where neither the queue nor the producers have changed.
consumer-IsReady :
    (k : ℕ) (s : System) (c c' : Consumer) (items : List ℕ)
    → get_elem? s.consumers k ≡ some c
    → (s.task_queue.stop_ ≡ false → ended_one c' ≡ ended_one c)
    → (s.task_queue.stop_ ≡ false → 0 < length s.task_queue.queue_ → awake_one c ≤ awake_one c')
    → (s.task_queue.stop_ ≡ true → sleeping_one c' ≡ 0)
    → IsReady s
    → IsReady (record s { consumers = set s.consumers k c'; handled = s.handled ++ items })
consumer-IsReady k s c c' items e same more less i =
    let m = sum_of-set awake_one s.consumers k c c' e in
    let n = sum_of-set sleeping_one s.consumers k c c' e in
    let z = sum_of-set ended_one s.consumers k c c' e in
    record {
      room = i.room;
      some_consumers = omega (arith, length-set s.consumers k c', i.some_consumers);
      alive = λ b. omega (arith, z, same b, i.alive b);
      attended = λ b g. omega (arith, m, more b g, i.attended b g);
      quiet = λ b. omega (arith, n, less b, i.quiet b);
      none_idle = i.none_idle;
      fed = i.fed;
    }

consumed-IsReady :
    (k choice : ℕ) (s : System) (c : Consumer) {r : Consumer × SafeQueue ℕ × List Notify × List ℕ}
    → get_elem? s.consumers k ≡ some c
    → IsReady s
    → Consumes s.task_queue c r
    → IsReady (consumed k choice r s)
consumed-IsReady k choice s c {r = (c', q, notes, items)} e i (Rounds.takes item rest u) =
    let m = sum_of-set awake_one s.consumers k c c' e in
    let n = sum_of-set sleeping_one s.consumers k c c' e in
    let z = sum_of-set ended_one s.consumers k c c' e in
    let w = wake_one-Woken Producer.waiting awake_producer choice s.producers in
    let was : length s.task_queue.queue_ ≡ suc (length rest) = ap length u in
    record {
      room = i.room;
      some_consumers = omega (arith, length-set s.consumers k c', i.some_consumers);
      alive = λ b. omega (arith, z, i.alive b);
      attended = λ b g. omega (arith, m, i.attended b (omega (arith, was)));
      quiet = λ b. omega (arith, n, i.quiet b);
      none_idle = idle-Woken s.producers _ i.none_idle w;
      fed = λ b g.
          let (more, some_wait) = fed-Woken s.producers _ i.none_idle w g in
          omega (arith, i.fed b some_wait, more, was);
    }
consumed-IsReady k choice s c {r = (c', q, notes, items)} e i (Rounds.leaves u b) =
    consumer-IsReady k s c c' [] e (λ l. absurd (ground (arith, l, b)))
      (λ l g. absurd (ground (arith, l, b))) (λ l. refl) i
consumed-IsReady k choice s c {r = (c', q, notes, items)} e i (Rounds.idles u b) =
    consumer-IsReady k s c c' [] e (λ l. refl) (λ l g. absurd (omega (arith, ap length u, g)))
      (λ l. absurd (ground (arith, l, b))) i
consumed-IsReady k choice s c {r = (c', q, notes, items)} e i Rounds.handles =
    consumer-IsReady k s c c' items e (λ l. refl) (λ l g. omega arith) (λ l. refl) i
consumed-IsReady k choice s c {r = (c', q, notes, items)} e i Rounds.sleeps =
    consumer-IsReady k s c c' [] e (λ l. refl) (λ l g. omega arith)
      (λ l. zero_at sleeping_one s.consumers k c (i.quiet l) e) i
consumed-IsReady k choice s c {r = (c', q, notes, items)} e i Rounds.stays =
    consumer-IsReady k s c c' [] e (λ l. refl) (λ l g. omega arith) (λ l. refl) i

produce_at-IsReady :
    (k choice : ℕ) (s : System)
    → IsKept s
    → IsReady s
    → IsReady (produce_at k choice (get_elem? s.producers k) s)
produce_at-IsReady k choice s t i = go (get_elem? s.producers k) refl
  where
    by_state :
        (p : Producer) (b w : Bool)
        → get_elem? s.producers k ≡ some p
        → p.finished ≡ b
        → p.waiting ≡ w
        → IsReady
            (if b then s else if w then s else produced k choice (producer_round p s.task_queue) s)
    by_state p true w e f g = i
    by_state p false true e f g = i
    by_state p false false e f g =
        let live = unfinished_live s k p t e f in
        produced-IsReady k choice s p e f g live i (producer_round-Produces p s.task_queue live)

    go : (o : Option Producer) → get_elem? s.producers k ≡ o → IsReady (produce_at k choice o s)
    go none e = i
    go (some p) e = by_state p p.finished p.waiting e refl refl

consume_at-IsReady :
    (k choice : ℕ) (s : System)
    → IsReady s
    → IsReady (consume_at k choice (get_elem? s.consumers k) s)
consume_at-IsReady k choice s i = go (get_elem? s.consumers k) refl
  where
    go : (o : Option Consumer) → get_elem? s.consumers k ≡ o → IsReady (consume_at k choice o s)
    go none e = i
    go (some c) e = consumed-IsReady k choice s c e i (consumer_round-Consumes c s.task_queue)

phase-IsReady : (m : MainPhase) (s : System) → IsReady s → IsReady (record s { main_phase = m })
phase-IsReady m s i = record {
  room = i.room;
  some_consumers = i.some_consumers;
  alive = i.alive;
  attended = i.attended;
  quiet = i.quiet;
  none_idle = i.none_idle;
  fed = i.fed;
}

awake_producer_quiet : (p : Producer) → (awake_producer p).waiting ≡ false
awake_producer_quiet p = refl

awake_consumer_quiet : (c : Consumer) → is_sleeping (awake_consumer c) ≡ false
awake_consumer_quiet (popping n) = refl
awake_consumer_quiet (sleeping n) = refl
awake_consumer_quiet (processing item n) = refl
awake_consumer_quiet (ended n) = refl

stopped-IsReady : (s : System) → IsReady s → IsReady (stopped_by (stop s.task_queue) s)
unfolding stop
stopped-IsReady s i = record {
  room = i.room;
  some_consumers =
      omega (arith, length-wake_all is_sleeping awake_consumer s.consumers, i.some_consumers);
  alive = λ b. absurd (ground (arith, b));
  attended = λ b g. absurd (ground (arith, b));
  quiet = λ b. none_waits-wake_all is_sleeping awake_consumer s.consumers awake_consumer_quiet;
  none_idle =
      idle-waiting (wake_all Producer.waiting awake_producer s.producers)
        (none_waits-wake_all Producer.waiting awake_producer s.producers awake_producer_quiet);
  fed = λ b g. absurd (ground (arith, b));
}

if-IsReady : (b : Bool) (t s : System) → IsReady t → IsReady s → IsReady (if b then t else s)
if-IsReady true t s i j = i
if-IsReady false t s i j = j

main_round-IsReady : (m : MainPhase) (s : System) → IsReady s → IsReady (main_round m s)
main_round-IsReady joins_producers s i =
    if-IsReady (all_finished s.producers) _ s (phase-IsReady awaits_empty s i) i
main_round-IsReady awaits_empty s i =
    if-IsReady (get_size s.task_queue == 0) _ s (stopped-IsReady s i) i
main_round-IsReady joins_consumers s i =
    if-IsReady (all_ended s.consumers) _ s (phase-IsReady returned s i) i
main_round-IsReady returned s i = i

wakes_producer-IsReady :
    (k : ℕ) (s : System) → IsReady s → IsReady (wakes_producer k (get_elem? s.producers k) s)
wakes_producer-IsReady k s i = go (get_elem? s.producers k) refl
  where
    go : (o : Option Producer) → get_elem? s.producers k ≡ o → IsReady (wakes_producer k o s)
    go none e = i
    go (some p) e =
        let m = sum_of-set ready_one s.producers k p (awake_producer p) e in
        let n = sum_of-set waiting_producer s.producers k p (awake_producer p) e in
        let z = sum_of-set idle_one s.producers k p (awake_producer p) e in
        record {
          room = i.room;
          some_consumers = i.some_consumers;
          alive = i.alive;
          attended = i.attended;
          quiet = i.quiet;
          none_idle = omega (arith, z, i.none_idle);
          fed = λ b g. ground (arith, i.fed b, m, n, g);
        }

wakes_consumer-IsReady :
    (k : ℕ) (s : System) → IsReady s → IsReady (wakes_consumer k (get_elem? s.consumers k) s)
wakes_consumer-IsReady k s i = go (get_elem? s.consumers k) refl
  where
    go : (o : Option Consumer) → get_elem? s.consumers k ≡ o → IsReady (wakes_consumer k o s)
    go none e = i
    go (some c) e =
        let m = sum_of-set awake_one s.consumers k c (awake_consumer c) e in
        let n = sum_of-set sleeping_one s.consumers k c (awake_consumer c) e in
        let z = sum_of-set ended_one s.consumers k c (awake_consumer c) e in
        record {
          room = i.room;
          some_consumers =
              omega (arith, length-set s.consumers k (awake_consumer c), i.some_consumers);
          alive = λ b. omega (arith, z, awake_ended c, i.alive b);
          attended = λ b g. omega (arith, m, awake_more c, i.attended b g);
          quiet = λ b. omega (arith, n, awake_sleeping c, i.quiet b);
          none_idle = i.none_idle;
          fed = i.fed;
        }

pub step-IsReady : (t : Thread) (s : System) → IsKept s → IsReady s → IsReady (step t s)
unfolding step
step-IsReady (producer_thread k choice) s t i = produce_at-IsReady k choice s t i
step-IsReady (consumer_thread k choice) s t i = consume_at-IsReady k choice s i
step-IsReady main_thread s t i = main_round-IsReady s.main_phase s i
step-IsReady (producer_wakes k) s t i = wakes_producer-IsReady k s i
step-IsReady (consumer_wakes k) s t i = wakes_consumer-IsReady k s i

pub steps-IsReady : (ts : List Thread) (s : System) → IsKept s → IsReady s → IsReady (steps ts s)
unfolding steps
steps-IsReady [] s t i = i
steps-IsReady (th ∷ rest) s t i =
    steps-IsReady rest (step th s) (step-IsKept th s t) (step-IsReady th s t i)

pub start-IsReady : IsReady start
start-IsReady = record {
  room = omega arith;
  some_consumers = omega arith;
  alive = λ b. refl;
  attended = λ b g. omega arith;
  quiet = λ b. refl;
  none_idle = refl;
  fed = λ b g. absurd (omega (arith, g));
}
