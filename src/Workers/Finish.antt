-- ===== src/Workers/Finish.antt =====
-- WebServer_Proj/Thread_Pool: where a stopped pool comes to rest.
use cpp_web_server.Base.{
  ℕ, suc, ◌≡◌, ◌≢◌, refl, sym, ap, ◌∙◌, true, none, some, List, [], ◌∷◌, ◌++◌, append-nil, length,
  get_elem?, arith,
}
use cpp_web_server.Workers.{Phase, exited, ThreadPool, worker_step}
use cpp_web_server.Workers.Drain.{busy, total_busy, worker_at_rest}
use cpp_web_server.Workers.Runs.{History, IsSound}

module _ {ℓ} {T : Type ℓ} where
  -- What the destructor reaches: nothing queued, nothing in work, and every worker has left.
  pub record IsFinished (h : History T) : Type ℓ where
    pub none_queued : h.pool.tasks_ ≡ []
    pub none_pending : h.pool.pending_tasks_ ≡ 0
    pub all_begun : h.begun ≡ h.given
    pub all_left : (i : ℕ) (w : Phase T) → get_elem? h.pool.workers_ i ≡ some w → w ≡ exited

  all_exited-busy :
      (ws : List (Phase T))
      → ((i : ℕ) (w : Phase T) → get_elem? ws i ≡ some w → w ≡ exited)
      → total_busy ws ≡ 0
  all_exited-busy [] all = refl
  all_exited-busy (w ∷ ws) all =
      let here = ap busy (all 0 w refl) in
      omega (arith, here, all_exited-busy ws (λ i v e. all (suc i) v e))

  first_exited :
      (p : ThreadPool T)
      → p.workers_ ≢ []
      → ((i : ℕ) (w : Phase T) → get_elem? p.workers_ i ≡ some w → w ≡ exited)
      → get_elem? p.workers_ 0 ≡ some exited
  first_exited p n all = go p.workers_ n all
    where
      go :
          (ws : List (Phase T))
          → ws ≢ []
          → ((i : ℕ) (w : Phase T) → get_elem? ws i ≡ some w → w ≡ exited)
          → get_elem? ws 0 ≡ some exited
      go [] n all = absurd (n refl)
      go (w ∷ ws) n all = ap some (all 0 w refl)

  -- In a sound history whose pool is stopped and has a worker, when no worker can move any more:
  -- every accepted task has been begun, in order, none is queued or in work, the counter is 0, and
  -- all workers have left, which is what the destructor waits for.
  pub stopped-IsFinished :
      (h : History T)
      → IsSound h
      → h.pool.stop_ ≡ true
      → h.pool.workers_ ≢ []
      → ((i : ℕ) → worker_step i h.pool ≡ none)
      → IsFinished h
  stopped-IsFinished h s stopped some_worker rest = record {
    none_queued = none_left;
    none_pending =
        s.counted ∙ omega (arith, ap length none_left, all_exited-busy h.pool.workers_ all);
    all_begun = sym (append-nil h.begun) ∙ ap (λ l. h.begun ++ l) (sym none_left) ∙ s.in_order;
    all_left = all;
  }
    where
      all : (i : ℕ) (w : Phase T) → get_elem? h.pool.workers_ i ≡ some w → w ≡ exited
      all i w e = worker_at_rest h.pool i w stopped e (rest i)

      none_left : h.pool.tasks_ ≡ []
      none_left = (s.left_last 0 (first_exited h.pool some_worker all)).1
