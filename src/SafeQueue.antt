-- ===== src/SafeQueue.antt =====
-- Base/Mutex/producer_consumer_fixed.cpp: the bounded queue of the producers and consumers. Each
-- definition is what one thread does while it holds the mutex.
pub mod System
pub mod Rounds
pub mod Wakes
pub mod Tally
pub mod Joins
pub mod Kept
pub mod Ends
pub mod Effort
pub mod Awake
pub mod Ready
pub mod Progress
use cpp_web_server.Base.{
  ℕ, ◌≤◌, ◌≡◌, refl, sym, ap, ◌∙◌, Bool, true, false, ◌||◌, List, [], ◌∷◌, ◌++◌, append_assoc,
  length, length-append, ltb, if◌then◌else◌, arith,
}

pub record SafeQueue {ℓ} (T : Type ℓ) : Type ℓ where
  pub queue_ : List T
  pub max_size : ℕ
  pub stop_ : Bool

-- What a call tells the condition variables.
pub data Notify : Type 0 where
  notify_one_not_empty notify_one_not_full notify_all_not_empty notify_all_not_full : Notify

-- What a call comes to: it waits on its condition variable, or returns false, or succeeds.
pub data Pushed {ℓ} (T : Type ℓ) : Type ℓ where
  push_waits push_refused : Pushed T
  pushed : SafeQueue T → List Notify → Pushed T

pub data Popped {ℓ} (T : Type ℓ) : Type ℓ where
  pop_waits pop_refused : Popped T
  popped : T → SafeQueue T → List Notify → Popped T

pub data QueueAct {ℓ} (T : Type ℓ) : Type ℓ where
  pushes : T → QueueAct T
  pops stops : QueueAct T

-- A queue with the values that were put in, and those that were taken out.
pub record QueueRun {ℓ} (T : Type ℓ) : Type ℓ where
  pub queue : SafeQueue T
  pub put_in : List T
  pub taken_out : List T

module _ {ℓ} {T : Type ℓ} where
  -- The constructor.
  abbrev pub new_queue : ℕ → SafeQueue T
  new_queue max_size = record { queue_ = []; max_size = max_size; stop_ = false }

  unfoldable pub push : T → SafeQueue T → Pushed T
  push value q =
      if ltb (length q.queue_) q.max_size || q.stop_
      then if q.stop_
        then push_refused
        else pushed (record q { queue_ = q.queue_ ++ value ∷ [] }) (notify_one_not_empty ∷ [])
      else push_waits

  abbrev pub pop_front : List T → SafeQueue T → Popped T
  pop_front [] q = if q.stop_ then pop_refused else pop_waits
  pop_front (value ∷ rest) q = popped value (record q { queue_ = rest }) (notify_one_not_full ∷ [])

  unfoldable pub pop : SafeQueue T → Popped T
  pop q = pop_front q.queue_ q

  unfoldable pub stop : SafeQueue T → SafeQueue T × List Notify
  stop q = (record q { stop_ = true }, notify_all_not_empty ∷ notify_all_not_full ∷ [])

  unfoldable pub get_size : SafeQueue T → ℕ
  get_size q = length q.queue_

  unfoldable pub is_stopped : SafeQueue T → Bool
  is_stopped q = q.stop_

  abbrev put : T → Pushed T → QueueRun T → QueueRun T
  put value (pushed q notes) r = record r { queue = q; put_in = r.put_in ++ value ∷ [] }
  put value _ r = r

  abbrev took : Popped T → QueueRun T → QueueRun T
  took (popped value q notes) r = record r { queue = q; taken_out = r.taken_out ++ value ∷ [] }
  took _ r = r

  -- A call that waits or is refused changes nothing.
  unfoldable pub queue_act : QueueAct T → QueueRun T → QueueRun T
  queue_act (pushes value) r = put value (push value r.queue) r
  queue_act pops r = took (pop r.queue) r
  queue_act stops r = record r { queue = (stop r.queue).0 }

  unfoldable pub queue_acts : List (QueueAct T) → QueueRun T → QueueRun T
  queue_acts [] r = r
  queue_acts (a ∷ rest) r = queue_acts rest (queue_act a r)

  -- Values leave in the order in which they came, none is lost, and the queue is never over-full.
  pub record IsFifo (max_size : ℕ) (r : QueueRun T) : Type ℓ where
    pub in_order : r.taken_out ++ r.queue.queue_ ≡ r.put_in
    pub same_size : r.queue.max_size ≡ max_size
    pub bounded : length r.queue.queue_ ≤ max_size

  push-IsFifo :
      (m : ℕ) (value : T) (r : QueueRun T) → IsFifo m r → IsFifo m (queue_act (pushes value) r)
  unfolding queue_act push
  push-IsFifo m value r f = go (ltb (length r.queue.queue_) r.queue.max_size) r.queue.stop_ refl
    where
      q : SafeQueue T
      q = record r.queue { queue_ = r.queue.queue_ ++ value ∷ [] }

      go :
          (room stopped : Bool)
          → ltb (length r.queue.queue_) r.queue.max_size ≡ room
          → IsFifo m (
              put value
                (if room || stopped
                  then if stopped then push_refused else pushed q (notify_one_not_empty ∷ [])
                  else push_waits)
                r)
      go true false e = record {
        in_order =
            sym (append_assoc r.taken_out r.queue.queue_ (value ∷ []))
            ∙ ap (λ l. l ++ value ∷ []) f.in_order;
        same_size = f.same_size;
        bounded = ground (arith, e, f.same_size, length-append r.queue.queue_ (value ∷ []));
      }
      go true true e = f
      go false true e = f
      go false false e = f

  pop-IsFifo : (m : ℕ) (r : QueueRun T) → IsFifo m r → IsFifo m (queue_act pops r)
  unfolding queue_act pop
  pop-IsFifo m r f = go r.queue.queue_ refl
    where
      empty_case : (b : Bool) → IsFifo m (took (if b then pop_refused else pop_waits) r)
      empty_case true = f
      empty_case false = f

      go : (l : List T) → r.queue.queue_ ≡ l → IsFifo m (took (pop_front l r.queue) r)
      go [] e = empty_case r.queue.stop_
      go (value ∷ rest) e = record {
        in_order =
            append_assoc r.taken_out (value ∷ []) rest
            ∙ ap (λ l. r.taken_out ++ l) (sym e)
            ∙ f.in_order;
        same_size = f.same_size;
        bounded = omega (arith, ap length e, f.bounded);
      }

  queue_act-IsFifo :
      (m : ℕ) (a : QueueAct T) (r : QueueRun T) → IsFifo m r → IsFifo m (queue_act a r)
  queue_act-IsFifo m (pushes value) r f = push-IsFifo m value r f
  queue_act-IsFifo m pops r f = pop-IsFifo m r f
  queue_act-IsFifo m stops r f =
      unfold queue_act stop in
      record { in_order = f.in_order; same_size = f.same_size; bounded = f.bounded }

  queue_acts-IsFifo :
      (m : ℕ) (rest : List (QueueAct T)) (r : QueueRun T)
      → IsFifo m r
      → IsFifo m (queue_acts rest r)
  unfolding queue_acts
  queue_acts-IsFifo m [] r f = f
  queue_acts-IsFifo m (a ∷ rest) r f =
      queue_acts-IsFifo m rest (queue_act a r) (queue_act-IsFifo m a r f)

  abbrev pub new_run : ℕ → QueueRun T
  new_run m = record { queue = new_queue m; put_in = []; taken_out = [] }

  -- However producers, consumers and a stop interleave on a new queue: the values taken out, and then
  -- those still queued, are the values put in, in order, and the queue never holds more than
  -- `max_size` of them.
  pub queue_acts-new_run-IsFifo :
      (m : ℕ) (history : List (QueueAct T)) → IsFifo m (queue_acts history (new_run m))
  queue_acts-new_run-IsFifo m history =
      queue_acts-IsFifo m history (new_run m)
        (record { in_order = refl; same_size = refl; bounded = omega arith })
