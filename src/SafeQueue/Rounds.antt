-- ===== src/SafeQueue/Rounds.antt =====
-- Base/Mutex/producer_consumer_fixed.cpp: what a round of a producer or of a consumer comes to, and
-- sums over the threads.
use cpp_web_server.Base.{
  ℕ, zero, suc, ◌+◌, ◌≤◌, ◌<◌, ◌||◌, ◌≡◌, refl, ap, Bool, true, false, some, List, [], ◌∷◌, ◌++◌,
  length, ltb, get_elem?, set, if◌then◌else◌, arith,
}
use cpp_web_server.SafeQueue.{
  Notify, notify_one_not_empty, notify_one_not_full, SafeQueue, push, pop, push_waits, push_refused,
  pushed, Popped, pop_waits, pop_refused, pop_front,
}
use cpp_web_server.SafeQueue.System.{
  Producer, Consumer, popping, sleeping, processing, ended, item_of, after_push, producer_round,
  after_pop, consumer_round,
}

module _ {ℓ} {A : Type ℓ} where
  abbrev pub sum_of : (A → ℕ) → List A → ℕ
  sum_of f [] = 0
  sum_of f (x ∷ xs) = f x + sum_of f xs

  pub sum_of-set :
      (f : A → ℕ) (xs : List A) (k : ℕ) (x y : A)
      → get_elem? xs k ≡ some x
      → sum_of f (set xs k y) + f x ≡ sum_of f xs + f y
  sum_of-set f [] k x y e = absurd (ground arith)
  sum_of-set f (x' ∷ xs) zero x y e =
      let same : x' ≡ x = ground (arith, e) in omega (arith, ap f same)
  sum_of-set f (x' ∷ xs) (suc k) x y e = omega (arith, sum_of-set f xs k x y e)

abbrev pub grown : Producer → SafeQueue ℕ → SafeQueue ℕ
grown p q = record q { queue_ = q.queue_ ++ item_of p ∷ [] }

-- A round of a producer on a queue that is not stopped.
pub data Produces (p : Producer) (q : SafeQueue ℕ)
    : Producer × SafeQueue ℕ × List Notify → Type 0 where
  ends : p.num_items ≤ p.i → Produces p q (record p { finished = true }, q, [])
  adds :
      p.i < p.num_items
      → Produces p q (record p { i = suc p.i }, grown p q, notify_one_not_empty ∷ [])
  waits :
      p.i < p.num_items
      → q.max_size ≤ length q.queue_
      → Produces p q (record p { waiting = true }, q, [])

pub producer_round-Produces :
    (p : Producer) (q : SafeQueue ℕ) → q.stop_ ≡ false → Produces p q (producer_round p q)
unfolding producer_round push
producer_round-Produces p q live =
    go (ltb p.i p.num_items) (ltb (length q.queue_) q.max_size) q.stop_ refl refl live
  where
    go :
        (more room stopped : Bool)
        → ltb p.i p.num_items ≡ more
        → ltb (length q.queue_) q.max_size ≡ room
        → stopped ≡ false
        → Produces p q (
            if more
            then after_push
                (if room || stopped
                  then if stopped
                    then push_refused
                    else pushed (grown p q) (notify_one_not_empty ∷ [])
                  else push_waits)
                p
                q
            else (record p { finished = true }, q, []))
    go false room stopped m r s = ends (ground (arith, m))
    go true true false m r s = adds (ground (arith, m))
    go true false false m r s = waits (ground (arith, m)) (ground (arith, r))
    go true room true m r s = absurd (ground (arith, s))

abbrev pub shrunk : List ℕ → SafeQueue ℕ → SafeQueue ℕ
shrunk rest q = record q { queue_ = rest }

-- A round of a consumer.
pub data Consumes (q : SafeQueue ℕ)
    : Consumer → Consumer × SafeQueue ℕ × List Notify × List ℕ → Type 0 where
  takes :
      {count : ℕ} (item : ℕ) (rest : List ℕ)
      → q.queue_ ≡ item ∷ rest
      → Consumes q
          (popping count)
          (processing item count, shrunk rest q, notify_one_not_full ∷ [], [])
  leaves :
      {count : ℕ}
      → q.queue_ ≡ []
      → q.stop_ ≡ true
      → Consumes q (popping count) (ended count, q, [], [])
  idles :
      {count : ℕ}
      → q.queue_ ≡ []
      → q.stop_ ≡ false
      → Consumes q (popping count) (sleeping count, q, [], [])
  handles :
      {item count : ℕ} → Consumes q (processing item count) (popping (suc count), q, [], item ∷ [])
  sleeps : {count : ℕ} → Consumes q (sleeping count) (sleeping count, q, [], [])
  stays : {count : ℕ} → Consumes q (ended count) (ended count, q, [], [])

pub consumer_round-Consumes : (c : Consumer) (q : SafeQueue ℕ) → Consumes q c (consumer_round c q)
unfolding consumer_round pop
consumer_round-Consumes (processing item count) q = handles
consumer_round-Consumes (ended count) q = stays
consumer_round-Consumes (sleeping count) q = sleeps
consumer_round-Consumes (popping count) q = go q.queue_ refl
  where
    after : Popped ℕ → Consumer × SafeQueue ℕ × List Notify × List ℕ
    after o = let (c, q', notes) = after_pop o count q in (c, q', notes, [])

    refused :
        (b : Bool)
        → q.queue_ ≡ []
        → q.stop_ ≡ b
        → Consumes q (popping count) (after (if b then pop_refused else pop_waits))
    refused true e s = leaves e s
    refused false e s = idles e s

    go : (l : List ℕ) → q.queue_ ≡ l → Consumes q (popping count) (after (pop_front l q))
    go [] e = refused q.stop_ e refl
    go (item ∷ rest) e = takes item rest e
