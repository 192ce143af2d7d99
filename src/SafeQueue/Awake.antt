-- ===== src/SafeQueue/Awake.antt =====
-- Base/Mutex/producer_consumer_fixed.cpp: how many threads are awake, and what waking one changes.
use cpp_web_server.Base.{
  ℕ, zero, suc, ◌+◌, ◌<◌, ◌≤◌, ◌≡◌, refl, sym, ap, ◌∙◌, true, some, List, [], ◌∷◌, ltb, length,
  get_elem?, if◌then◌else◌, arith,
}
use cpp_web_server.SafeQueue.System.{
  Producer, Consumer, popping, sleeping, processing, ended, is_sleeping, awake_producer,
  awake_consumer,
}
use cpp_web_server.SafeQueue.Rounds.{sum_of, sum_of-set}
use cpp_web_server.SafeQueue.Wakes
use cpp_web_server.SafeQueue.Wakes.{
  waiting_one, Woken, wake_one-Woken, none_waits-wake_all, length-Woken, length-wake_all,
}

abbrev pub awake_one : Consumer → ℕ
awake_one (popping n) = 1
awake_one (sleeping n) = 0
awake_one (processing item n) = 1
awake_one (ended n) = 0

abbrev pub ended_one : Consumer → ℕ
ended_one (ended n) = 1
ended_one _ = 0

abbrev pub sleeping_one : Consumer → ℕ
sleeping_one = waiting_one is_sleeping awake_consumer

abbrev pub waiting_producer : Producer → ℕ
waiting_producer = waiting_one Producer.waiting awake_producer

-- A producer that is awake and has an item to push.
abbrev pub ready_one : Producer → ℕ
ready_one p =
    if p.finished then 0 else if p.waiting then 0 else if ltb p.i p.num_items then 1 else 0

-- One that waits without an item to push.
abbrev pub idle_one : Producer → ℕ
idle_one p = if p.waiting then if p.finished then 1 else if ltb p.i p.num_items then 0 else 1 else 0

pub zero_at :
    {A : Type 0} (f : A → ℕ) (xs : List A) (k : ℕ) (x : A)
    → sum_of f xs ≡ 0
    → get_elem? xs k ≡ some x
    → f x ≡ 0
zero_at f [] k x z e = absurd (ground arith)
zero_at f (y ∷ xs) zero x z e =
    let same : y ≡ x = ground (arith, e) in ap f (sym same) ∙ omega (arith, z)
zero_at f (y ∷ xs) (suc k) x z e = zero_at f xs k x (omega (arith, z)) e

each_once :
    (cs : List Consumer)
    → sum_of awake_one cs + sum_of sleeping_one cs + sum_of ended_one cs ≡ length cs
each_once [] = omega arith
each_once (popping n ∷ cs) = omega (arith, each_once cs)
each_once (sleeping n ∷ cs) = omega (arith, each_once cs)
each_once (processing item n ∷ cs) = omega (arith, each_once cs)
each_once (ended n ∷ cs) = omega (arith, each_once cs)

woken_awake :
    (c : Consumer) → is_sleeping c ≡ true → (awake_one c ≡ 0) × (awake_one (awake_consumer c) ≡ 1)
woken_awake (popping n) e = absurd (ground arith)
woken_awake (sleeping n) e = (refl, refl)
woken_awake (processing item n) e = absurd (ground arith)
woken_awake (ended n) e = absurd (ground arith)

pub awake_ended : (c : Consumer) → ended_one (awake_consumer c) ≡ ended_one c
awake_ended (popping n) = refl
awake_ended (sleeping n) = refl
awake_ended (processing item n) = refl
awake_ended (ended n) = refl

pub awake_more : (c : Consumer) → awake_one c ≤ awake_one (awake_consumer c)
awake_more (popping n) = omega arith
awake_more (sleeping n) = omega arith
awake_more (processing item n) = omega arith
awake_more (ended n) = omega arith

pub awake_sleeping : (c : Consumer) → sleeping_one (awake_consumer c) ≡ 0
awake_sleeping (popping n) = refl
awake_sleeping (sleeping n) = refl
awake_sleeping (processing item n) = refl
awake_sleeping (ended n) = refl

-- Where none has ended, a notification leaves a consumer awake.
pub attended-Woken :
    (cs ds : List Consumer)
    → 0 < length cs
    → sum_of ended_one cs ≡ 0
    → Woken is_sleeping awake_consumer cs ds
    → 0 < sum_of awake_one ds
attended-Woken cs cs' l z (Wakes.none_waits n) = omega (arith, each_once cs, n, z, l)
attended-Woken cs ds l z (Wakes.wakes k c e w) =
    let (off, on) = woken_awake c w in
    omega (arith, sum_of-set awake_one cs k c (awake_consumer c) e, off, on)

pub ended-Woken :
    (cs ds : List Consumer)
    → Woken is_sleeping awake_consumer cs ds
    → sum_of ended_one ds ≡ sum_of ended_one cs
ended-Woken cs ds w = Wakes.sum_of-Woken is_sleeping awake_consumer ended_one cs ds awake_ended w

-- A producer that is woken has an item to push.
pub fed-Woken :
    (ps qs : List Producer)
    → sum_of idle_one ps ≡ 0
    → Woken Producer.waiting awake_producer ps qs
    → 0 < sum_of waiting_producer qs
    → (sum_of ready_one qs ≡ suc (sum_of ready_one ps)) × (0 < sum_of waiting_producer ps)
fed-Woken ps ps' z (Wakes.none_waits n) h = absurd (omega (arith, n, h))
fed-Woken ps qs z (Wakes.wakes k p e w) h =
    let m = sum_of-set ready_one ps k p (awake_producer p) e in
    let n = sum_of-set waiting_producer ps k p (awake_producer p) e in
    let idle : idle_one p ≡ 0 = zero_at idle_one ps k p z e in
    (ground (arith, m, w, idle), ground (arith, n, w, h))

pub idle-Woken :
    (ps qs : List Producer)
    → sum_of idle_one ps ≡ 0
    → Woken Producer.waiting awake_producer ps qs
    → sum_of idle_one qs ≡ 0
idle-Woken ps ps' z (Wakes.none_waits n) = z
idle-Woken ps qs z (Wakes.wakes k p e w) =
    omega (arith, sum_of-set idle_one ps k p (awake_producer p) e, z)

pub idle-waiting : (ps : List Producer) → sum_of waiting_producer ps ≡ 0 → sum_of idle_one ps ≡ 0
idle-waiting [] z = refl
idle-waiting (p ∷ ps) z = ground (arith, z, idle-waiting ps)
