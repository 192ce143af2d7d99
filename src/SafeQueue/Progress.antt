-- ===== src/SafeQueue/Progress.antt =====
-- Base/Mutex/producer_consumer_fixed.cpp: the program never gets stuck.
use cpp_web_server.Base.{
  ℕ, zero, suc, ◌<◌, ◌≤◌, ◌==◌, ◌≡◌, ◌≢◌, ◌⊎◌, refl, sym, ap, subst, ◌∙◌, inl, inr, Bool, true,
  false, some, List, [], ◌∷◌, ◌++◌, ltb, length, get_elem?, if◌then◌else◌, Bool-cases, arith,
}
use cpp_web_server.SafeQueue.{stop, get_size}
use cpp_web_server.SafeQueue.System.{
  Producer, Consumer, popping, sleeping, processing, ended, MainPhase, joins_producers,
  awaits_empty, joins_consumers, returned, System, start, all_finished, is_ended, is_sleeping,
  all_ended, main_round, Thread, producer_thread, consumer_thread, main_thread, producer_wakes,
  consumer_wakes, step, steps, stopped_by,
}
use cpp_web_server.SafeQueue.Rounds.{sum_of}
use cpp_web_server.SafeQueue.Kept.{IsPhase, IsKept, steps-IsKept, start-IsKept, step-IsKept}
use cpp_web_server.SafeQueue.Effort.{
  effort, effort-notify_each, producer_less, consumer_less, sum_of_at, unended_at,
}
use cpp_web_server.SafeQueue.Ready.{IsReady, step-IsReady, steps-IsReady, start-IsReady}
use cpp_web_server.SafeQueue.Awake.{awake_one, sleeping_one, ready_one, waiting_producer, zero_at}

-- A turn that no waiting thread takes by waking on its own.
abbrev pub no_wake : Thread → Bool
no_wake (producer_wakes k) = false
no_wake (consumer_wakes k) = false
no_wake _ = true

abbrev pub none_wakes : List Thread → Bool
none_wakes [] = true
none_wakes (t ∷ ts) = if no_wake t then none_wakes ts else false

abbrev Moves : System → Type 0
Moves s = (t : Thread) × (no_wake t ≡ true) × (effort (step t s) < effort s)

consumer-Moves :
    (k : ℕ) (c : Consumer) (s : System)
    → get_elem? s.consumers k ≡ some c
    → is_ended c ≡ false
    → is_sleeping c ≡ false
    → (s.task_queue.queue_ ≡ [] → s.task_queue.stop_ ≡ true)
    → Moves s
consumer-Moves k c s e a z n = (consumer_thread k 0, refl, consumer_less k s c e a z n)

awake-alive : (c : Consumer) → 0 < awake_one c → (is_ended c ≡ false) × (is_sleeping c ≡ false)
awake-alive (popping n) h = (refl, refl)
awake-alive (sleeping n) h = absurd (omega (arith, h))
awake-alive (processing item n) h = (refl, refl)
awake-alive (ended n) h = absurd (omega (arith, h))

-- A consumer that is awake takes from a queue that is not empty.
attended-Moves :
    (s : System) → IsReady s → s.task_queue.stop_ ≡ false → 0 < length s.task_queue.queue_ → Moves s
attended-Moves s i b l =
    let (k, c, e, h) = sum_of_at awake_one s.consumers (i.attended b l) in
    let (a, z) = awake-alive c h in
    consumer-Moves k c s e a z (λ u. absurd (omega (arith, ap length u, l)))

-- Where there are unfinished producers, one of them waits or can take its turn.
unfinished_or_waits :
    (ps : List Producer)
    → all_finished ps ≡ false
    → (0 < sum_of waiting_producer ps)
      ⊎ ((k : ℕ) × (p : Producer) × (get_elem? ps k ≡ some p)
          × (p.finished ≡ false)
          × (p.waiting ≡ false))
unfinished_or_waits [] a = absurd (ground arith)
unfinished_or_waits (p ∷ ps) a = elim (Bool-cases p.waiting) [
  | inl w ↦ inl (ground (arith, w))
  | inr w ↦ elim (Bool-cases p.finished) [
    | inr f ↦ inr (zero, p, refl, f, w)
    | inl f ↦ elim (unfinished_or_waits ps (ground (arith, a, f))) [
      | inl h ↦ inl (omega (arith, h))
      | inr (k, q, e, g, v) ↦ inr (suc k, q, e, g, v)
    ]
  ]
]

ready-state : (p : Producer) → 0 < ready_one p → (p.finished ≡ false) × (p.waiting ≡ false)
ready-state p h = elim (Bool-cases p.finished) [
  | inl f ↦ absurd (ground (arith, h, f))
  | inr f ↦ elim (Bool-cases p.waiting) [
    | inl w ↦ absurd (ground (arith, h, f, w))
    | inr w ↦ (f, w)
  ]
]

producer-Moves :
    (s : System)
    → IsReady s
    → s.task_queue.stop_ ≡ false
    → all_finished s.producers ≡ false
    → Moves s
producer-Moves s i b a = elim (Bool-cases (ltb 0 (length s.task_queue.queue_))) [
  | inl l ↦ attended-Moves s i b (ground (arith, l))
  | inr l ↦
      let none_queued : length s.task_queue.queue_ ≡ 0 = ground (arith, l) in
      let free : length s.task_queue.queue_ < s.task_queue.max_size =
        omega (arith, none_queued, i.room) in
      elim (unfinished_or_waits s.producers a) [
        | inr (k, p, e, f, w) ↦ (producer_thread k 0, refl, producer_less k s p e f w b free)
        | inl h ↦
            let (k, p, e, g) =
              sum_of_at ready_one s.producers (omega (arith, i.fed b h, none_queued, i.room)) in
            let (f, w) = ready-state p g in
            (producer_thread k 0, refl, producer_less k s p e f w b free)
      ]
]

main-Moves : (s : System) → effort (main_round s.main_phase s) < effort s → Moves s
main-Moves s h = (main_thread, refl, unfold step in h)

stopped_less :
    (s : System)
    → s.main_phase ≡ awaits_empty
    → effort (stopped_by (stop s.task_queue) s) < effort s
unfolding stop
stopped_less s e =
    let same =
      effort-notify_each 0 (stop s.task_queue).1
        (record s { main_phase = joins_consumers; task_queue = (stop s.task_queue).0 }) in
    rw same (rw e (omega arith))

sleeping-quiet : (c : Consumer) → sleeping_one c ≡ 0 → is_sleeping c ≡ false
sleeping-quiet c z = ground (arith, z)

-- Until `main` has returned, some thread has a step that leaves less to do.
some-Moves : (s : System) → IsKept s → IsReady s → s.main_phase ≢ returned → Moves s
unfolding get_size
some-Moves s k i n = go s.main_phase refl k.in_phase
  where
    go : (m : MainPhase) → s.main_phase ≡ m → IsPhase m s → Moves s
    go joins_producers e j = elim (Bool-cases (all_finished s.producers)) [
      | inl a ↦ main-Moves s (rw (e, a) (omega arith))
      | inr a ↦ producer-Moves s i j a
    ]
    go awaits_empty e j = elim (Bool-cases (get_size s.task_queue == 0)) [
      | inl a ↦
          let stops : main_round s.main_phase s ≡ stopped_by (stop s.task_queue) s =
            ap (λ m. main_round m s) e
            ∙ ap (λ b. if b then stopped_by (stop s.task_queue) s else s) a in
          main-Moves s (subst (λ u. effort u < effort s) (sym stops) (stopped_less s e))
      | inr a ↦ attended-Moves s i j.0 (ground (arith, a))
    ]
    go joins_consumers e j = elim (Bool-cases (all_ended s.consumers)) [
      | inl a ↦ main-Moves s (rw (e, a) (omega arith))
      | inr a ↦
          let (k, c, f, g) = unended_at s.consumers a in
          let z = zero_at sleeping_one s.consumers k c (i.quiet j.2) f in
          consumer-Moves k c s f g (sleeping-quiet c z) (λ u. j.2)
    ]
    go returned e j = absurd (n e)

main_phase-returned : (m : MainPhase) → (m ≡ returned) ⊎ (m ≢ returned)
main_phase-returned joins_producers = inr (λ e. cc)
main_phase-returned awaits_empty = inr (λ e. cc)
main_phase-returned joins_consumers = inr (λ e. cc)
main_phase-returned returned = inl refl

-- Turns with which `main` returns, none of them a thread that wakes on its own.
record Finishes (s : System) : Type 0 where
  rest : List Thread
  notified : none_wakes rest ≡ true
  ends : (steps rest s).main_phase ≡ returned

returns_within : (n : ℕ) (s : System) → effort s ≤ n → IsKept s → IsReady s → Finishes s
unfolding steps
returns_within zero s h k i = elim (main_phase-returned s.main_phase) [
  | inl e ↦ record { rest = []; notified = refl; ends = e }
  | inr u ↦ absurd (let (t, w, less) = some-Moves s k i u in omega (arith, less, h))
]
returns_within (suc n) s h k i = elim (main_phase-returned s.main_phase) [
  | inl e ↦ record { rest = []; notified = refl; ends = e }
  | inr u ↦
      let (t, w, less) = some-Moves s k i u in
      let f =
        returns_within n (step t s) (omega (arith, less, h)) (step-IsKept t s k)
          (step-IsReady t s k i) in
      record { rest = t ∷ f.rest; notified = rw w f.notified; ends = f.ends }
]

steps-append : (ts rest : List Thread) (s : System) → steps (ts ++ rest) s ≡ steps rest (steps ts s)
unfolding steps
steps-append [] rest s = refl
steps-append (t ∷ ts) rest s = steps-append ts rest (step t s)

-- There are further turns, of threads that do not wait or have been notified, with which `main` returns.
abbrev pub Returns : List Thread → Type 0
Returns order =
    (rest : List Thread) × (none_wakes rest ≡ true)
    × ((steps (order ++ rest) start).main_phase ≡ returned)

-- The program never gets stuck. A thread whose call of the queue waits takes no turn until a
-- notification wakes it, or it wakes on its own, as a condition variable allows, and looks again;
-- `notify_one` wakes any one of the threads that wait. Whatever turns the threads have taken, and
-- whichever threads were woken, there are further turns, in which no thread wakes on its own, with
-- which `main` returns.
pub steps-Returns : (order : List Thread) → Returns order
steps-Returns order =
    let s = steps order start in
    let f =
      returns_within (effort s) s (omega arith) (steps-IsKept order start start-IsKept)
        (steps-IsReady order start start-IsKept start-IsReady) in
    (f.rest, f.notified, ap System.main_phase (steps-append order f.rest start) ∙ f.ends)
