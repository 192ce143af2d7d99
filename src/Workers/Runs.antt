-- ===== src/Workers/Runs.antt =====
-- WebServer_Proj/Thread_Pool: histories of submissions, worker steps and a stop, in any order.
use cpp_web_server.Base.{
  ℕ, zero, suc, ◌+◌, ◌⊎◌, ◌≡◌, ◌≢◌, refl, sym, ap, ◌∙◌, true, false, Option, none, some, List, [],
  ◌∷◌, ◌++◌, append-nil, append_assoc, length-append, get_elem?, set, replicate, inl, inr, arith,
  Bool-cases,
}
use cpp_web_server.Workers.{
  Phase, waiting, running, finishing, exited, ThreadPool, start, submit, Wake, takes, wake, move,
  worker_step, request_stop,
}
use cpp_web_server.Workers.Drain.{
  total_busy, IsCounted, move-IsCounted, nothing, the_end, task, finds,
}

pub data Act {ℓ} (T : Type ℓ) : Type ℓ where
  submits : T → Act T
  steps : ℕ → Act T
  stops : Act T

-- A pool with the tasks that it has accepted, and those that its workers have begun.
pub record History {ℓ} (T : Type ℓ) : Type ℓ where
  pub pool : ThreadPool T
  pub given : List T
  pub begun : List T

abbrev idle_workers {ℓ} : (T : Type ℓ) → ℕ → List (Phase T)
idle_workers T n = replicate n waiting

replicate-waiting {ℓ} : (T : Type ℓ) (n : ℕ) → total_busy (idle_workers T n) ≡ 0
replicate-waiting T zero = refl
replicate-waiting T (suc n) = omega (arith, replicate-waiting T n)

no_exited {ℓ} : (T : Type ℓ) (n i : ℕ) → get_elem? (idle_workers T n) i ≢ some exited
no_exited T zero i e = cc
no_exited T (suc n) zero e = cc
no_exited T (suc n) (suc i) e = no_exited T n i e

module _ {ℓ} {T : Type ℓ} where
  abbrev pub new_history : ℕ → History T
  new_history n = record { pool = start n; given = []; begun = [] }

  abbrev pub accepted : T → Option (ThreadPool T) → History T → History T
  accepted t none h = h
  accepted t (some p) h = record h { pool = p; given = h.given ++ t ∷ [] }

  -- The task that a worker begins, if its next step begins one.
  abbrev pub next_task : Option (Phase T) → Wake T → List T
  next_task (some waiting) (takes t rest) = t ∷ []
  next_task _ _ = []

  abbrev pub moved : List T → Option (ThreadPool T) → History T → History T
  moved ts none h = h
  moved ts (some p) h = record h { pool = p; begun = h.begun ++ ts }

  -- An act that cannot be done changes nothing.
  unfoldable pub act : Act T → History T → History T
  act (submits t) h = accepted t (submit t h.pool) h
  act (steps i) h =
      moved (next_task (get_elem? h.pool.workers_ i) (wake h.pool)) (worker_step i h.pool) h
  act stops h = record h { pool = request_stop h.pool }

  unfoldable pub acts : List (Act T) → History T → History T
  acts [] h = h
  acts (a ∷ rest) h = acts rest (act a h)

  -- The counter is right, the tasks are begun in the order in which they were given, and a worker has
  -- left only if the pool is stopped and the queue is empty.
  pub record IsSound (h : History T) : Type ℓ where
    pub counted : IsCounted h.pool
    pub in_order : h.begun ++ h.pool.tasks_ ≡ h.given
    pub left_last :
        (i : ℕ)
        → get_elem? h.pool.workers_ i ≡ some exited
        → (h.pool.stop_ ≡ true) × (h.pool.tasks_ ≡ [])

  pub new_history-IsSound : (n : ℕ) → IsSound (new_history n)
  unfolding start
  new_history-IsSound n = record {
    counted = omega (arith, replicate-waiting T n);
    in_order = refl;
    left_last = λ i e. absurd (no_exited T n i e);
  }

  submit_stopped : (t : T) (p : ThreadPool T) → p.stop_ ≡ true → submit t p ≡ none
  unfolding submit
  submit_stopped t p e = rw e

  submit_live :
      (t : T) (p : ThreadPool T)
      → p.stop_ ≡ false
      → submit t p
        ≡ some (record p { tasks_ = p.tasks_ ++ t ∷ []; pending_tasks_ = p.pending_tasks_ + 1 })
  unfolding submit
  submit_live t p e = ground arith

  submits-IsSound : (t : T) (h : History T) → IsSound h → IsSound (act (submits t) h)
  unfolding act
  submits-IsSound t h s = elim (Bool-cases h.pool.stop_) [
    | inl stopped ↦ rw (submit_stopped t h.pool stopped) s
    | inr live ↦ rw (submit_live t h.pool live) (record {
      counted = ground (arith, s.counted, length-append h.pool.tasks_ (t ∷ []));
      in_order =
          sym (append_assoc h.begun h.pool.tasks_ (t ∷ [])) ∙ ap (λ l. l ++ t ∷ []) s.in_order;
      left_last = λ i e. absurd (ground (arith, s.left_last i e));
    })
  ]

  stops-IsSound : (h : History T) → IsSound h → IsSound (act stops h)
  unfolding act request_stop
  stops-IsSound h s = record {
    counted = s.counted;
    in_order = s.in_order;
    left_last = λ i e. (refl, (s.left_last i e).1);
  }

  set_cases :
      (ws : List (Phase T)) (i j : ℕ) (v x : Phase T)
      → get_elem? (set ws i v) j ≡ some x
      → (x ≡ v) ⊎ (get_elem? ws j ≡ some x)
  set_cases [] i j v x e = inr e
  set_cases (w ∷ ws) zero zero v x e = inl cc
  set_cases (w ∷ ws) zero (suc j) v x e = inr e
  set_cases (w ∷ ws) (suc i) zero v x e = inr e
  set_cases (w ∷ ws) (suc i) (suc j) v x e = set_cases ws i j v x e

  -- A worker other than one that leaves keeps `left_last`, where the queue does not grow.
  stays_last :
      (h : History T) (i : ℕ) (v : Phase T) (ts : List T)
      → IsSound h
      → v ≢ exited
      → (h.pool.tasks_ ≡ [] → ts ≡ [])
      → (j : ℕ) → get_elem? (set h.pool.workers_ i v) j ≡ some exited
      → (h.pool.stop_ ≡ true) × (ts ≡ [])
  stays_last h i v ts s n keep j e = elim (set_cases h.pool.workers_ i j v exited e) [
    | inl same ↦ absurd (n (sym same))
    | inr was ↦ let (stopped, none_left) = s.left_last j was in (stopped, keep none_left)
  ]

  abbrev gone : ℕ → ThreadPool T → ThreadPool T
  gone i p = record p { workers_ = set p.workers_ i exited }

  abbrev begins : ℕ → T → List T → ThreadPool T → ThreadPool T
  begins i t rest p = record p { tasks_ = rest; workers_ = set p.workers_ i (running t) }

  phase-IsSound :
      (i : ℕ) (h : History T) (o : Option (Phase T))
      → get_elem? h.pool.workers_ i ≡ o
      → IsSound h
      → IsSound (moved (next_task o (wake h.pool)) (move i o h.pool) h)
  phase-IsSound i h none g s = s
  phase-IsSound i h (some exited) g s = s
  phase-IsSound i h (some (running t)) g s = record {
    counted = move-IsCounted i h.pool _ (some (running t)) g refl s.counted;
    in_order = ap (λ l. l ++ h.pool.tasks_) (append-nil h.begun) ∙ s.in_order;
    left_last = stays_last h i finishing h.pool.tasks_ s (λ e. cc) (λ e. e);
  }
  phase-IsSound i h (some finishing) g s = record {
    counted = move-IsCounted i h.pool _ (some finishing) g refl s.counted;
    in_order = ap (λ l. l ++ h.pool.tasks_) (append-nil h.begun) ∙ s.in_order;
    left_last = stays_last h i waiting h.pool.tasks_ s (λ e. cc) (λ e. e);
  }
  phase-IsSound i h (some waiting) g s = elim (finds h.pool) [
    | nothing w ts live ↦ rw w s
    | the_end w ts stopped ↦ rw w (record {
      counted = move-IsCounted i h.pool (gone i h.pool) (some waiting) g (rw w) s.counted;
      in_order = ap (λ l. l ++ h.pool.tasks_) (append-nil h.begun) ∙ s.in_order;
      left_last = λ j e. (stopped, ts);
    })
    | task t rest w ts ↦ rw w (record {
      counted = move-IsCounted i h.pool (begins i t rest h.pool) (some waiting) g (rw w) s.counted;
      in_order = append_assoc h.begun (t ∷ []) rest ∙ ap (λ l. h.begun ++ l) (sym ts) ∙ s.in_order;
      left_last = stays_last h i (running t) rest s (λ e. cc) (λ e. absurd (ground arith));
    })
  ]

  steps-IsSound : (i : ℕ) (h : History T) → IsSound h → IsSound (act (steps i) h)
  unfolding act worker_step
  steps-IsSound i h s = phase-IsSound i h (get_elem? h.pool.workers_ i) refl s

  pub act-IsSound : (a : Act T) (h : History T) → IsSound h → IsSound (act a h)
  act-IsSound (submits t) h s = submits-IsSound t h s
  act-IsSound (steps i) h s = steps-IsSound i h s
  act-IsSound stops h s = stops-IsSound h s

  acts-IsSound : (as' : List (Act T)) (h : History T) → IsSound h → IsSound (acts as' h)
  unfolding acts
  acts-IsSound [] h s = s
  acts-IsSound (a ∷ rest) h s = acts-IsSound rest (act a h) (act-IsSound a h s)

  -- From a new pool, whatever is submitted and however the workers are scheduled: the counter is the
  -- number of tasks queued or in work, the tasks begun and those still queued are the tasks
  -- accepted, in order, and a worker leaves only a stopped pool with an empty queue.
  pub acts-new_history-IsSound :
      (n : ℕ) (history : List (Act T)) → IsSound (acts history (new_history n))
  acts-new_history-IsSound n history = acts-IsSound history (new_history n) (new_history-IsSound n)
