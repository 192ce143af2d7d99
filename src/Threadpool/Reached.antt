-- ===== src/Threadpool/Reached.antt =====
-- Base/Threadpool: every state that the first pool comes to is one of a sound history of the last
-- server's pool.
use cpp_web_server.Base.{
  ℕ, ◌+◌, if◌then◌else◌, ◌≡◌, refl, ap, ◌∙◌, Bool, true, false, ◌&&◌, ◌||◌, none, some, List, [],
  ◌∷◌, ◌++◌, get_elem?, arith,
}
use cpp_web_server.Workers
use cpp_web_server.Workers.{ThreadPool, waiting, start, worker_step, request_stop, wake}
use cpp_web_server.Workers.Runs.{
  submits, steps, stops, History, new_history, accepted, moved, next_task, act, IsSound,
  act-IsSound, new_history-IsSound,
}
use cpp_web_server.Threadpool
use cpp_web_server.Threadpool.{Threadpool, new_threadpool, Moves, submit, shut_down}
use cpp_web_server.Threadpool.Same.{to_workers, Moves-worker_step}

module _ {ℓ} {T : Type ℓ} where
  -- The tasks that a worker's move begins.
  abbrev pub begins : {i : ℕ} {p q : Threadpool T} → Moves i p q → List T
  begins (Threadpool.takes {task} w t) = task ∷ []
  begins (Threadpool.leaves w s t) = []
  begins (Threadpool.runs w) = []
  begins (Threadpool.counts w) = []

  -- The states that the pool comes to, with the tasks that it was given and those that its workers
  -- have begun, in order.
  pub data Reached (n : ℕ) : Threadpool T → List T → List T → Type ℓ where
    at_start : Reached n (new_threadpool n) [] []
    moves :
        {p q : Threadpool T} {given begun : List T}
        → Reached n p given begun
        → (i : ℕ) (m : Moves i p q) → Reached n q given (begun ++ begins m)
    takes_in :
        {p q : Threadpool T} {given begun : List T}
        → Reached n p given begun
        → (task : T) → submit task p ≡ some q
        → Reached n q (given ++ task ∷ []) begun
    shuts :
        {p : Threadpool T} {given begun : List T}
        → Reached n p given begun
        → Reached n (shut_down p) given begun

  -- A sound history of the last server's pool with this state, and these tasks given and begun.
  pub record Told (p : Threadpool T) (given begun : List T) : Type ℓ where
    pub history : History T
    pub ends : history.pool ≡ to_workers p
    pub was_given : history.given ≡ given
    pub was_begun : history.begun ≡ begun
    pub sound : IsSound history

  step_told :
      (h : History T) (i : ℕ) (q : ThreadPool T)
      → worker_step i h.pool ≡ some q
      → (act (steps i) h).pool ≡ q
  unfolding act
  step_told h i q e = rw e

  submit_same :
      (task : T) (p q : Threadpool T)
      → submit task p ≡ some q
      → Workers.submit task (to_workers p) ≡ some (to_workers q)
  unfolding submit Workers.submit
  submit_same task p q e = go p.stop e
    where
      after : Threadpool T
      after = record p { tasks = p.tasks ++ task ∷ []; pending_tasks = p.pending_tasks + 1 }

      same : some after ≡ some q → after ≡ q
      same e = ground (arith, e)

      go :
          (b : Bool)
          → (if b then none else some after) ≡ some q
          → (if b then none else some (to_workers after)) ≡ some (to_workers q)
      go true e = absurd (ground arith)
      go false e = ap (λ u. some (to_workers u)) (same e)

  submit_told :
      (h : History T) (task : T) (p q : Threadpool T)
      → h.pool ≡ to_workers p
      → submit task p ≡ some q
      → (act (submits task) h).pool ≡ to_workers q
  unfolding act
  submit_told h task p q m e =
      ap (λ o. (accepted task o h).pool) (ap (Workers.submit task) m ∙ submit_same task p q e)

  submit_lists :
      (h : History T) (task : T) (p q : Threadpool T)
      → h.pool ≡ to_workers p
      → submit task p ≡ some q
      → ((act (submits task) h).given ≡ h.given ++ task ∷ [])
        × ((act (submits task) h).begun ≡ h.begun)
  unfolding act
  submit_lists h task p q m e =
      let done : Workers.submit task h.pool ≡ some (to_workers q) =
        ap (Workers.submit task) m ∙ submit_same task p q e in
      (ap (λ o. (accepted task o h).given) done, ap (λ o. (accepted task o h).begun) done)

  next_begins :
      (i : ℕ) (p q : Threadpool T) (m : Moves i p q)
      → next_task (get_elem? p.workers i) (wake (to_workers p)) ≡ begins m
  unfolding wake
  next_begins i p q (Threadpool.takes {task} {rest} w t) = rw (w, t) (go p.stop)
    where
      go :
          (b : Bool)
          → next_task (some waiting) (
              if b || true
              then if◌then◌else◌ {A = Workers.Wake T}
                  (b && false)
                  Workers.leaves
                  (Workers.takes task rest)
              else Workers.sleeps)
            ≡ task ∷ []
      go true = refl
      go false = refl
  next_begins i p q (Threadpool.leaves w s t) = rw (w, s, t) refl
  next_begins i p q (Threadpool.runs {task} w) = rw w refl
  next_begins i p q (Threadpool.counts w) = rw w refl

  step_lists :
      (h : History T) (i : ℕ) (q : ThreadPool T)
      → worker_step i h.pool ≡ some q
      → ((act (steps i) h).given ≡ h.given)
        × ((act (steps i) h).begun
            ≡ h.begun ++ next_task (get_elem? h.pool.workers_ i) (wake h.pool))
  unfolding act
  step_lists h i q e =
      let ts = next_task (get_elem? h.pool.workers_ i) (wake h.pool) in
      (ap (λ o. (moved ts o h).given) e, ap (λ o. (moved ts o h).begun) e)

  stop-Told :
      (h : History T) (p : Threadpool T) (given begun : List T)
      → h.pool ≡ to_workers p
      → h.given ≡ given
      → h.begun ≡ begun
      → IsSound h
      → Told (shut_down p) given begun
  unfolding act shut_down request_stop
  stop-Told h p given begun m g b s = record {
    history = act stops h;
    ends = ap request_stop m;
    was_given = g;
    was_begun = b;
    sound = act-IsSound stops h s;
  }

  -- Every state that the first pool comes to, by its workers, by submissions and by a stop in any
  -- order, is the last state of a sound history of the last server's pool, in which the same tasks were
  -- given and begun, in the same order: the counter is right, the tasks begun and then those queued are
  -- the tasks given, in order, and a worker has left only where the pool is stopped and the queue is
  -- empty.
  pub Reached-Told :
      {n : ℕ} {p : Threadpool T} {given begun : List T}
      → Reached n p given begun
      → Told p given begun
  unfolding new_threadpool
  Reached-Told {n} at_start = record {
    history = new_history n;
    ends = unfold start in refl;
    was_given = refl;
    was_begun = refl;
    sound = new_history-IsSound n;
  }
  Reached-Told (moves {p} {q} {given} {begun} r i m) =
      let t = Reached-Told r in
      let moved_on : worker_step i t.history.pool ≡ some (to_workers q) =
        ap (worker_step i) t.ends ∙ (Moves-worker_step i p q).0 m in
      let (g, b) = step_lists t.history i (to_workers q) moved_on in
      record {
        history = act (steps i) t.history;
        ends = step_told t.history i (to_workers q) moved_on;
        was_given = g ∙ t.was_given;
        was_begun =
            b
            ∙ ap (λ u. t.history.begun ++ next_task (get_elem? u.workers_ i) (wake u)) t.ends
            ∙ ap (λ l. t.history.begun ++ l) (next_begins i p q m)
            ∙ ap (λ l. l ++ begins m) t.was_begun;
        sound = act-IsSound (steps i) t.history t.sound;
      }
  Reached-Told (takes_in {p} {q} {given} {begun} r task e) =
      let t = Reached-Told r in
      let (g, b) = submit_lists t.history task p q t.ends e in
      record {
        history = act (submits task) t.history;
        ends = submit_told t.history task p q t.ends e;
        was_given = g ∙ ap (λ l. l ++ task ∷ []) t.was_given;
        was_begun = b ∙ t.was_begun;
        sound = act-IsSound (submits task) t.history t.sound;
      }
  Reached-Told (shuts {p} {given} {begun} r) =
      let t = Reached-Told r in
      stop-Told t.history p given begun t.ends t.was_given t.was_begun t.sound
