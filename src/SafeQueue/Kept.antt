-- ===== src/SafeQueue/Kept.antt =====
-- Base/Mutex/producer_consumer_fixed.cpp: what every step of a thread keeps.
use cpp_web_server.Base.{
  ℕ, ◌==◌, ◌≡◌, refl, ◌∙◌, Bool, true, false, Option, none, some, List, [], ◌∷◌, length, get_elem?,
  set, if◌then◌else◌, arith,
}
use cpp_web_server.SafeQueue.{
  SafeQueue, stop, get_size, Notify, notify_one_not_empty, notify_one_not_full,
  notify_all_not_empty, notify_all_not_full,
}
use cpp_web_server.SafeQueue.System.{
  Producer, Consumer, MainPhase, joins_producers, awaits_empty, joins_consumers, returned, System,
  start, producer_round, all_finished, is_ended, all_ended, main_round, Thread, producer_thread,
  consumer_thread, main_thread, produce_at, consume_at, step, steps, producer_wakes, consumer_wakes,
  wakes_producer, wakes_consumer, notify, notify_each, produced, stopped_by, awake_consumer,
  consumer_round, awake_producer, is_sleeping,
}
use cpp_web_server.SafeQueue.Rounds.{
  sum_of, sum_of-set, grown, Produces, producer_round-Produces, Consumes, consumer_round-Consumes,
}
use cpp_web_server.SafeQueue.Rounds
use cpp_web_server.SafeQueue.Wakes.{wake_one-Woken}
use cpp_web_server.SafeQueue.Tally.{
  tally, to_come, at_work, awake_at_work, tally-notify, after_producer, produced_tally,
  consumed_tally, after_consumer,
}
use cpp_web_server.SafeQueue.Joins.{
  all_finished-get, all_ended-get, all_ended-set, all_finished-set, all_finished-Woken,
  all_finished-wake_all, is_ended-awake, all_ended-Woken, all_ended-wake_all,
}

abbrev pub IsPhase : MainPhase → System → Type 0
IsPhase joins_producers s = s.task_queue.stop_ ≡ false
IsPhase awaits_empty s = (s.task_queue.stop_ ≡ false) × (all_finished s.producers ≡ true)
IsPhase joins_consumers s =
    (s.task_queue.queue_ ≡ []) × (all_finished s.producers ≡ true) × (s.task_queue.stop_ ≡ true)
IsPhase returned s =
    (s.task_queue.queue_ ≡ []) × (all_finished s.producers ≡ true) × (all_ended s.consumers ≡ true)

pub record IsKept (s : System) : Type 0 where
  pub conserved : (v : ℕ) → tally v s ≡ tally v start
  pub in_phase : IsPhase s.main_phase s

-- An unfinished producer is at work only before the first `join` is over.
unfinished :
    (s : System) (k : ℕ) (p : Producer) (m : MainPhase)
    → IsPhase m s
    → get_elem? s.producers k ≡ some p
    → p.finished ≡ false
    → m ≡ joins_producers
unfinished s k p joins_producers i e f = refl
unfinished s k p awaits_empty i e f =
    absurd (ground (arith, all_finished-get s.producers k p i.1 e))
unfinished s k p joins_consumers i e f =
    absurd (ground (arith, all_finished-get s.producers k p i.1 e))
unfinished s k p returned i e f = absurd (ground (arith, all_finished-get s.producers k p i.1 e))

-- So the queue is not stopped yet.
pub unfinished_live :
    (s : System) (k : ℕ) (p : Producer)
    → IsKept s
    → get_elem? s.producers k ≡ some p
    → p.finished ≡ false
    → s.task_queue.stop_ ≡ false
unfinished_live s k p i e f = go s.main_phase i.in_phase
  where
    go : (m : MainPhase) → IsPhase m s → s.task_queue.stop_ ≡ false
    go joins_producers j = j
    go awaits_empty j = j.0
    go joins_consumers j = absurd (ground (arith, unfinished s k p joins_consumers j e f))
    go returned j = absurd (ground (arith, unfinished s k p returned j e f))

pub Produces-stop_ :
    (p : Producer) (q : SafeQueue ℕ) {p' : Producer} {q' : SafeQueue ℕ} {notes : List Notify}
    → Produces p q (p', q', notes)
    → q'.stop_ ≡ q.stop_
Produces-stop_ p q (Rounds.ends h) = refl
Produces-stop_ p q (Rounds.adds h) = refl
Produces-stop_ p q (Rounds.waits h w) = refl

-- The threads, where those that are past their loops are so still.
threads-IsPhase :
    (m : MainPhase) (s : System) (ps : List Producer) (cs : List Consumer)
    → (all_finished s.producers ≡ true → all_finished ps ≡ true)
    → (all_ended s.consumers ≡ true → all_ended cs ≡ true)
    → IsPhase m s
    → IsPhase m (record s { producers = ps; consumers = cs })
threads-IsPhase joins_producers s ps cs f g j = j
threads-IsPhase awaits_empty s ps cs f g j = (j.0, f j.1)
threads-IsPhase joins_consumers s ps cs f g j = (j.0, f j.1, j.2)
threads-IsPhase returned s ps cs f g j = (j.0, f j.1, g j.2)

notify-IsKept : (choice : ℕ) (n : Notify) (s : System) → IsKept s → IsKept (notify choice n s)
notify-IsKept choice n s i = record {
  conserved = λ v. tally-notify v choice n s ∙ i.conserved v;
  in_phase = go n;
}
  where
    go : (n : Notify) → IsPhase (notify choice n s).main_phase (notify choice n s)
    go notify_one_not_empty =
        let w = wake_one-Woken is_sleeping awake_consumer choice s.consumers in
        threads-IsPhase s.main_phase s s.producers _ (λ a. a) (all_ended-Woken s.consumers _ w)
          i.in_phase
    go notify_one_not_full =
        let w = wake_one-Woken Producer.waiting awake_producer choice s.producers in
        threads-IsPhase s.main_phase s _ s.consumers (all_finished-Woken s.producers _ w) (λ a. a)
          i.in_phase
    go notify_all_not_empty =
        threads-IsPhase s.main_phase s s.producers _ (λ a. a) (all_ended-wake_all s.consumers)
          i.in_phase
    go notify_all_not_full =
        threads-IsPhase s.main_phase s _ s.consumers (all_finished-wake_all s.producers) (λ a. a)
          i.in_phase

pub notify_each-IsKept :
    (choice : ℕ) (notes : List Notify) (s : System) → IsKept s → IsKept (notify_each choice notes s)
notify_each-IsKept choice [] s i = i
notify_each-IsKept choice (n ∷ notes) s i =
    notify_each-IsKept choice notes (notify choice n s) (notify-IsKept choice n s i)

produced-IsKept :
    (k choice : ℕ) (p : Producer) (s : System)
    → get_elem? s.producers k ≡ some p
    → p.finished ≡ false
    → IsKept s
    → IsKept (produced k choice (producer_round p s.task_queue) s)
produced-IsKept k choice p s e f i = go s.main_phase refl i.in_phase
  where
    go :
        (m : MainPhase)
        → s.main_phase ≡ m
        → IsPhase m s
        → IsKept (produced k choice (producer_round p s.task_queue) s)
    go joins_producers m live =
        let r = producer_round-Produces p s.task_queue live in
        notify_each-IsKept choice (producer_round p s.task_queue).2
          (after_producer k s (producer_round p s.task_queue))
          (record {
            conserved = λ v. produced_tally v k p s e f r ∙ i.conserved v;
            in_phase = rw m (Produces-stop_ p s.task_queue r ∙ live);
          })
    go awaits_empty m j = absurd (ground (arith, unfinished s k p awaits_empty j e f))
    go joins_consumers m j = absurd (ground (arith, unfinished s k p joins_consumers j e f))
    go returned m j = absurd (ground (arith, unfinished s k p returned j e f))

produce_at-IsKept :
    (k choice : ℕ) (s : System)
    → IsKept s
    → IsKept (produce_at k choice (get_elem? s.producers k) s)
produce_at-IsKept k choice s i = go (get_elem? s.producers k) refl
  where
    by_state :
        (p : Producer) (b w : Bool)
        → get_elem? s.producers k ≡ some p
        → p.finished ≡ b
        → IsKept
            (if b then s else if w then s else produced k choice (producer_round p s.task_queue) s)
    by_state p true w e f = i
    by_state p false true e f = i
    by_state p false false e f = produced-IsKept k choice p s e f i

    go : (o : Option Producer) → get_elem? s.producers k ≡ o → IsKept (produce_at k choice o s)
    go none e = i
    go (some p) e = by_state p p.finished p.waiting e refl

pub Consumes-stop_ :
    (q : SafeQueue ℕ) (c : Consumer) {c' : Consumer} {q' : SafeQueue ℕ} {notes : List Notify}
    {items : List ℕ}
    → Consumes q c (c', q', notes, items)
    → q'.stop_ ≡ q.stop_
Consumes-stop_ q c (Rounds.takes item rest u) = refl
Consumes-stop_ q c (Rounds.leaves u b) = refl
Consumes-stop_ q c (Rounds.idles u b) = refl
Consumes-stop_ q c Rounds.handles = refl
Consumes-stop_ q c Rounds.sleeps = refl
Consumes-stop_ q c Rounds.stays = refl

-- An empty queue stays so, and a consumer that has ended.
Consumes-empty :
    (q : SafeQueue ℕ) (c : Consumer) {c' : Consumer} {q' : SafeQueue ℕ} {notes : List Notify}
    {items : List ℕ}
    → Consumes q c (c', q', notes, items)
    → q.queue_ ≡ []
    → q'.queue_ ≡ []
Consumes-empty q c (Rounds.takes item rest u) e = absurd (ground (arith, u, e))
Consumes-empty q c (Rounds.leaves u b) e = e
Consumes-empty q c (Rounds.idles u b) e = e
Consumes-empty q c Rounds.handles e = e
Consumes-empty q c Rounds.sleeps e = e
Consumes-empty q c Rounds.stays e = e

Consumes-is_ended :
    (q : SafeQueue ℕ) (c : Consumer) {c' : Consumer} {q' : SafeQueue ℕ} {notes : List Notify}
    {items : List ℕ}
    → Consumes q c (c', q', notes, items)
    → is_ended c ≡ true
    → is_ended c' ≡ true
Consumes-is_ended q c (Rounds.takes item rest u) e = absurd (ground arith)
Consumes-is_ended q c (Rounds.leaves u b) e = refl
Consumes-is_ended q c (Rounds.idles u b) e = absurd (ground arith)
Consumes-is_ended q c Rounds.handles e = absurd (ground arith)
Consumes-is_ended q c Rounds.sleeps e = absurd (ground arith)
Consumes-is_ended q c Rounds.stays e = e

consume_at-IsKept :
    (k choice : ℕ) (s : System)
    → IsKept s
    → IsKept (consume_at k choice (get_elem? s.consumers k) s)
consume_at-IsKept k choice s i = go (get_elem? s.consumers k) refl
  where
    at_phase :
        (c : Consumer) (m : MainPhase) {r : Consumer × SafeQueue ℕ × List Notify × List ℕ}
        → get_elem? s.consumers k ≡ some c
        → Consumes s.task_queue c r
        → IsPhase m s
        → IsPhase m (after_consumer k s r)
    at_phase c joins_producers e r j = Consumes-stop_ s.task_queue c r ∙ j
    at_phase c awaits_empty e r j = (Consumes-stop_ s.task_queue c r ∙ j.0, j.1)
    at_phase c joins_consumers e r j =
        (Consumes-empty s.task_queue c r j.0, j.1, Consumes-stop_ s.task_queue c r ∙ j.2)
    at_phase c returned {r = (c', q, notes, items)} e r j = (
      Consumes-empty s.task_queue c r j.0,
      j.1,
      all_ended-set s.consumers k c' j.2
          (Consumes-is_ended s.task_queue c r (all_ended-get s.consumers k c j.2 e)),
    )

    go : (o : Option Consumer) → get_elem? s.consumers k ≡ o → IsKept (consume_at k choice o s)
    go none e = i
    go (some c) e =
        let r = consumer_round-Consumes c s.task_queue in
        notify_each-IsKept choice (consumer_round c s.task_queue).2
          (after_consumer k s (consumer_round c s.task_queue))
          (record {
            conserved = λ v. consumed_tally v k c s e r ∙ i.conserved v;
            in_phase = at_phase c s.main_phase e r i.in_phase;
          })

pub if-IsKept :
    (b : Bool) (t s : System) → (b ≡ true → IsKept t) → IsKept s → IsKept (if b then t else s)
if-IsKept true t s then_kept kept = then_kept refl
if-IsKept false t s then_kept kept = kept

pub length-zero : (l : List ℕ) → (length l == 0) ≡ true → l ≡ []
length-zero [] h = refl
length-zero (v ∷ l) h = absurd (ground (arith, h))

main_round-IsKept : (s : System) → IsKept s → IsKept (main_round s.main_phase s)
unfolding stop get_size
main_round-IsKept s i = go s.main_phase i.in_phase
  where
    go : (m : MainPhase) → IsPhase m s → IsKept (main_round m s)
    go joins_producers j =
        if-IsKept (all_finished s.producers) (record s { main_phase = awaits_empty }) s
          (λ a. record { conserved = i.conserved; in_phase = (j, a) }) i
    go awaits_empty j =
        if-IsKept (get_size s.task_queue == 0) (stopped_by (stop s.task_queue) s) s
          (λ a.
            notify_each-IsKept 0 (stop s.task_queue).1
              (record s { main_phase = joins_consumers; task_queue = (stop s.task_queue).0 })
              (record {
                conserved = i.conserved;
                in_phase = (length-zero s.task_queue.queue_ a, j.1, refl);
              }))
          i
    go joins_consumers j =
        if-IsKept (all_ended s.consumers) (record s { main_phase = returned }) s
          (λ a. record { conserved = i.conserved; in_phase = (j.0, j.1, a) }) i
    go returned j = i

wakes_producer-IsKept :
    (k : ℕ) (s : System) → IsKept s → IsKept (wakes_producer k (get_elem? s.producers k) s)
wakes_producer-IsKept k s i = go (get_elem? s.producers k) refl
  where
    go : (o : Option Producer) → get_elem? s.producers k ≡ o → IsKept (wakes_producer k o s)
    go none e = i
    go (some p) e = record {
      conserved = λ v.
          let same = sum_of-set (to_come v) s.producers k p (awake_producer p) e in
          omega (arith, same, i.conserved v);
      in_phase =
          threads-IsPhase s.main_phase s (set s.producers k (awake_producer p)) s.consumers
            (λ a.
              all_finished-set s.producers k (awake_producer p) a
                (all_finished-get s.producers k p a e))
            (λ a. a) i.in_phase;
    }

wakes_consumer-IsKept :
    (k : ℕ) (s : System) → IsKept s → IsKept (wakes_consumer k (get_elem? s.consumers k) s)
wakes_consumer-IsKept k s i = go (get_elem? s.consumers k) refl
  where
    go : (o : Option Consumer) → get_elem? s.consumers k ≡ o → IsKept (wakes_consumer k o s)
    go none e = i
    go (some c) e = record {
      conserved = λ v.
          let same = sum_of-set (at_work v) s.consumers k c (awake_consumer c) e in
          omega (arith, same, awake_at_work v c, i.conserved v);
      in_phase =
          threads-IsPhase s.main_phase s s.producers (set s.consumers k (awake_consumer c)) (λ a. a)
            (λ a.
              all_ended-set s.consumers k (awake_consumer c) a
                (is_ended-awake c ∙ all_ended-get s.consumers k c a e))
            i.in_phase;
    }

pub step-IsKept : (t : Thread) (s : System) → IsKept s → IsKept (step t s)
unfolding step
step-IsKept (producer_thread k choice) s i = produce_at-IsKept k choice s i
step-IsKept (consumer_thread k choice) s i = consume_at-IsKept k choice s i
step-IsKept main_thread s i = main_round-IsKept s i
step-IsKept (producer_wakes k) s i = wakes_producer-IsKept k s i
step-IsKept (consumer_wakes k) s i = wakes_consumer-IsKept k s i

pub steps-IsKept : (ts : List Thread) (s : System) → IsKept s → IsKept (steps ts s)
unfolding steps
steps-IsKept [] s i = i
steps-IsKept (t ∷ rest) s i = steps-IsKept rest (step t s) (step-IsKept t s i)

pub start-IsKept : IsKept start
start-IsKept = record { conserved = λ v. refl; in_phase = refl }
