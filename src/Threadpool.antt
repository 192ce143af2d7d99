-- ===== src/Threadpool.antt =====
-- Base/Threadpool/Threadpool.h: the first thread pool, as a relation between its states. A step is
-- what one worker does while it holds the mutex, or outside it.
pub mod Same
pub mod Reached
use cpp_web_server.Base.{
  ℕ, ◌+◌, ◌-◌, ◌≡◌, Bool, true, false, Option, none, some, List, [], ◌∷◌, ◌++◌, get_elem?, set,
  replicate, if◌then◌else◌,
}
use cpp_web_server.Workers.{Phase, waiting, running, finishing, exited}

pub record Threadpool {ℓ} (T : Type ℓ) : Type ℓ where
  pub stop : Bool
  pub workers : List (Phase T)
  pub tasks : List T
  pub pending_tasks : ℕ

module _ {ℓ} {T : Type ℓ} where
  unfoldable pub new_threadpool : ℕ → Threadpool T
  new_threadpool num_threads = record {
    stop = false;
    workers = replicate num_threads waiting;
    tasks = [];
    pending_tasks = 0;
  }

  -- The `i`th worker: out of the wait with a task, out of the loop, through the task, and past it.
  pub data Moves (i : ℕ) (p : Threadpool T) : Threadpool T → Type ℓ where
    takes :
        {task : T} {rest : List T}
        → get_elem? p.workers i ≡ some waiting
        → p.tasks ≡ task ∷ rest
        → Moves i p (record p { tasks = rest; workers = set p.workers i (running task) })
    leaves :
        get_elem? p.workers i ≡ some waiting
        → p.stop ≡ true
        → p.tasks ≡ []
        → Moves i p (record p { workers = set p.workers i exited })
    runs :
        {task : T}
        → get_elem? p.workers i ≡ some (running task)
        → Moves i p (record p { workers = set p.workers i finishing })
    counts :
        get_elem? p.workers i ≡ some finishing
        → Moves i p
            (record p { pending_tasks = p.pending_tasks - 1; workers = set p.workers i waiting })

  -- `none` where it throws.
  unfoldable pub submit : T → Threadpool T → Option (Threadpool T)
  submit task p =
      if p.stop
      then none
      else some (record p { tasks = p.tasks ++ task ∷ []; pending_tasks = p.pending_tasks + 1 })

  -- The destructor, before it waits for the count to come to nothing and joins the workers.
  unfoldable pub shut_down : Threadpool T → Threadpool T
  shut_down p = record p { stop = true }
