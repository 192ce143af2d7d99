-- ===== src/Threadpool/Same.antt =====
-- Base/Threadpool and WebServer_Proj/Thread_Pool: the two pools move alike.
use cpp_web_server.Base.{
  ℕ, ◌≡◌, refl, subst, ◌↔◌, Bool, true, false, not, ◌&&◌, ◌||◌, Option, none, some, List, [], ◌∷◌,
  get_elem?, set, if◌then◌else◌, arith,
}
use cpp_web_server.Workers
use cpp_web_server.Workers.{
  Phase, waiting, running, finishing, exited, ThreadPool, worker_step, wake, take_front, woken,
  move, empty,
}
use cpp_web_server.Threadpool.{Threadpool, Moves, takes, leaves, runs, counts}

module _ {ℓ} {T : Type ℓ} where
  -- The same pool, with the last server's names.
  abbrev pub to_workers : Threadpool T → ThreadPool T
  to_workers p = record {
    stop_ = p.stop;
    pending_tasks_ = p.pending_tasks;
    tasks_ = p.tasks;
    workers_ = p.workers;
  }

  abbrev pub of_workers : ThreadPool T → Threadpool T
  of_workers q = record {
    stop = q.stop_;
    workers = q.workers_;
    tasks = q.tasks_;
    pending_tasks = q.pending_tasks_;
  }

  step_of :
      (i : ℕ) (p q : Threadpool T)
      → Moves i p q
      → worker_step i (to_workers p) ≡ some (to_workers q)
  unfolding worker_step wake
  step_of i p q (takes {task} {rest} w t) = rw (w, t) (go p.stop)
    where
      go :
          (b : Bool)
          → woken i
              (if b || true
                then if◌then◌else◌ {A = Workers.Wake T}
                    (b && false)
                    Workers.leaves
                    (Workers.takes task rest)
                else Workers.sleeps)
              (record (to_workers p) { tasks_ = task ∷ rest })
            ≡ some
                (to_workers (record p { tasks = rest; workers = set p.workers i (running task) }))
      go true = refl
      go false = refl
  step_of i p q (leaves w s t) = rw (w, s, t) refl
  step_of i p q (runs {task} w) = rw w refl
  step_of i p q (counts w) = rw w refl

  ends_at :
      (i : ℕ) (p : Threadpool T) (r q : ThreadPool T)
      → some r ≡ some q
      → Moves i p (of_workers r)
      → Moves i p (of_workers q)
  ends_at i p r q e = subst (λ u. Moves i p (of_workers u)) (inside r q e)
    where
      inside : (r q : ThreadPool T) → some r ≡ some q → r ≡ q
      inside r q e = ground arith

  -- A worker that wakes.
  wake-Moves :
      (i : ℕ) (p : Threadpool T) (q : ThreadPool T)
      → get_elem? p.workers i ≡ some waiting
      → woken i (wake (to_workers p)) (to_workers p) ≡ some q
      → Moves i p (of_workers q)
  unfolding wake
  wake-Moves i p q w e = go p.stop p.tasks refl refl e
    where
      go :
          (b : Bool) (l : List T)
          → p.stop ≡ b
          → p.tasks ≡ l
          → woken i
              (if b || not (empty l)
                then if◌then◌else◌ {A = Workers.Wake T} (b && empty l) Workers.leaves (take_front l)
                else Workers.sleeps)
              (to_workers p)
            ≡ some q
          → Moves i p (of_workers q)
      go false [] s t e = absurd (ground arith)
      go true [] s t e = ends_at i p _ q e (leaves w s t)
      go false (task ∷ rest) s t e = ends_at i p _ q e (takes w t)
      go true (task ∷ rest) s t e = ends_at i p _ q e (takes w t)

  move-Moves :
      (i : ℕ) (p : Threadpool T) (q : ThreadPool T) (o : Option (Phase T))
      → get_elem? p.workers i ≡ o
      → move i o (to_workers p) ≡ some q
      → Moves i p (of_workers q)
  move-Moves i p q (some waiting) w e = wake-Moves i p q w e
  move-Moves i p q (some (running task)) w e = ends_at i p _ q e (runs w)
  move-Moves i p q (some finishing) w e = ends_at i p _ q e (counts w)
  move-Moves i p q (some exited) w e = absurd (ground arith)
  move-Moves i p q none w e = absurd (ground arith)

  -- A worker of the first pool moves from one state to another exactly when the step of the last
  -- server's worker, on the same state, gives that other.
  pub Moves-worker_step :
      (i : ℕ) (p q : Threadpool T)
      → Moves i p q ↔ (worker_step i (to_workers p) ≡ some (to_workers q))
  unfolding worker_step
  Moves-worker_step i p q =
      (step_of i p q, λ e. move-Moves i p (to_workers q) (get_elem? p.workers i) refl e)
