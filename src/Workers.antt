-- ===== src/Workers.antt =====
-- WebServer_Proj/Thread_Pool: the task queue and its workers. Each definition is what one thread does
-- while it holds the mutex, or what it does to the atomic counter. A task is a value of `T`.
pub mod Drain
pub mod Runs
pub mod Finish
use cpp_web_server.Base.{
  ℕ, suc, ◌+◌, ◌-◌, Bool, true, false, ◌&&◌, ◌||◌, not, Option, none, some, List, [], ◌∷◌, ◌++◌,
  get_elem?, set, replicate, length, if◌then◌else◌,
}

-- Where a worker stands in `worker_loop_`.
pub data Phase {ℓ} (T : Type ℓ) : Type ℓ where
  waiting : Phase T
  running : T → Phase T
  finishing : Phase T
  exited : Phase T

pub record ThreadPool {ℓ} (T : Type ℓ) : Type ℓ where
  pub stop_ : Bool
  pub pending_tasks_ : ℕ
  pub tasks_ : List T
  pub workers_ : List (Phase T)

-- A worker that looks at the queue: it sleeps on, leaves, or takes a task.
pub data Wake {ℓ} (T : Type ℓ) : Type ℓ where
  sleeps leaves : Wake T
  takes : T → List T → Wake T

module _ {ℓ} {T : Type ℓ} where
  abbrev pub empty : List T → Bool
  empty [] = true
  empty (_ ∷ _) = false

  -- The constructor.
  unfoldable pub start : ℕ → ThreadPool T
  start num_threads = record {
    stop_ = false;
    pending_tasks_ = 0;
    tasks_ = [];
    workers_ = replicate num_threads waiting;
  }

  -- `none` where it throws, on a pool that is stopped.
  unfoldable pub submit : T → ThreadPool T → Option (ThreadPool T)
  submit task p =
      if p.stop_
      then none
      else some (record p { tasks_ = p.tasks_ ++ task ∷ []; pending_tasks_ = p.pending_tasks_ + 1 })

  abbrev pub take_front : List T → Wake T
  take_front [] = sleeps
  take_front (task ∷ rest) = takes task rest

  unfoldable pub wake : ThreadPool T → Wake T
  wake p =
      if p.stop_ || not (empty p.tasks_)
      then if p.stop_ && empty p.tasks_ then leaves else take_front p.tasks_
      else sleeps

  abbrev pub woken : ℕ → Wake T → ThreadPool T → Option (ThreadPool T)
  woken i sleeps p = none
  woken i leaves p = some (record p { workers_ = set p.workers_ i exited })
  woken i (takes task rest) p =
      some (record p { tasks_ = rest; workers_ = set p.workers_ i (running task) })

  -- The next step of a worker, by where it stands; `none` where it cannot move.
  abbrev pub move : ℕ → Option (Phase T) → ThreadPool T → Option (ThreadPool T)
  move i (some waiting) p = woken i (wake p) p
  move i (some (running task)) p = some (record p { workers_ = set p.workers_ i finishing })
  move i (some finishing) p =
      some (record p { pending_tasks_ = p.pending_tasks_ - 1; workers_ = set p.workers_ i waiting })
  move i _ p = none

  unfoldable pub worker_step : ℕ → ThreadPool T → Option (ThreadPool T)
  worker_step i p = move i (get_elem? p.workers_ i) p

  -- The destructor's first step; it then waits until `drained`, and joins the workers.
  unfoldable pub request_stop : ThreadPool T → ThreadPool T
  request_stop p = record p { stop_ = true }

  unfoldable pub pending_count : ThreadPool T → ℕ
  pending_count p = p.pending_tasks_

  unfoldable pub thread_count : ThreadPool T → ℕ
  thread_count p = length p.workers_
