-- ===== src/Workers/Drain.antt =====
-- WebServer_Proj/Thread_Pool: no task is lost, and what the destructor waits for.
use cpp_web_server.Base.{
  ◌≤◌, ℕ, zero, suc, ◌+◌, ◌*◌, ◌⊎◌, ◌<◌, ◌≡◌, refl, sym, ap, ◌∙◌, true, false, Option, none, some,
  List, [], ◌∷◌, length, length-append, get_elem?, set, inl, inr, arith, Bool-cases,
}
use cpp_web_server.Workers.{
  Phase, waiting, running, finishing, exited, ThreadPool, submit, sleeps, leaves, takes, wake, move,
  worker_step,
}

module _ {ℓ} {T : Type ℓ} where
  -- A worker that has taken a task and not yet counted it as done.
  abbrev pub busy : Phase T → ℕ
  busy waiting = 0
  busy (running t) = 1
  busy finishing = 1
  busy exited = 0

  abbrev pub total_busy : List (Phase T) → ℕ
  total_busy [] = 0
  total_busy (w ∷ ws) = busy w + total_busy ws

  -- The counter is the number of tasks queued and in work.
  abbrev pub IsCounted : ThreadPool T → Type 0
  IsCounted p = p.pending_tasks_ ≡ length p.tasks_ + total_busy p.workers_

  total_busy-set :
      (ws : List (Phase T)) (i : ℕ) (w v : Phase T)
      → get_elem? ws i ≡ some w
      → total_busy (set ws i v) + busy w ≡ total_busy ws + busy v
  total_busy-set [] i w v e = cc
  total_busy-set (x ∷ ws) zero w v e = let h : x ≡ w = cc in rw h (omega arith)
  total_busy-set (x ∷ ws) (suc i) w v e = omega (arith, total_busy-set ws i w v e)

  pub submit-IsCounted :
      (t : T) (p q : ThreadPool T) → submit t p ≡ some q → IsCounted p → IsCounted q
  unfolding submit
  submit-IsCounted t p q e c = elim (Bool-cases p.stop_) [
    | inl s ↦ absurd (ground arith)
    | inr s ↦ ground (arith, length-append p.tasks_ (t ∷ []))
  ]

  -- What a worker finds when it looks at the queue.
  pub data Finds (p : ThreadPool T) : Type ℓ where
    nothing : wake p ≡ sleeps → p.tasks_ ≡ [] → p.stop_ ≡ false → Finds p
    the_end : wake p ≡ leaves → p.tasks_ ≡ [] → p.stop_ ≡ true → Finds p
    task : (t : T) (rest : List T) → wake p ≡ takes t rest → p.tasks_ ≡ t ∷ rest → Finds p

  pub finds : (p : ThreadPool T) → Finds p
  unfolding wake
  finds p = go p.tasks_ refl (Bool-cases p.stop_)
    where
      go : (ts : List T) → p.tasks_ ≡ ts → (p.stop_ ≡ true) ⊎ (p.stop_ ≡ false) → Finds p
      go [] e (inl s) = the_end (ground arith) e s
      go [] e (inr s) = nothing (ground arith) e s
      go (t ∷ rest) e s = task t rest (ground arith) e

  pub move-IsCounted :
      (i : ℕ) (p q : ThreadPool T) (w : Option (Phase T))
      → get_elem? p.workers_ i ≡ w
      → move i w p ≡ some q
      → IsCounted p
      → IsCounted q
  move-IsCounted i p q none g e c = cc
  move-IsCounted i p q (some exited) g e c = cc
  move-IsCounted i p q (some (running t)) g e c =
      ground (arith, total_busy-set p.workers_ i (running t) finishing g)
  move-IsCounted i p q (some finishing) g e c =
      ground (arith, total_busy-set p.workers_ i finishing waiting g)
  move-IsCounted i p q (some waiting) g e c = elim (finds p) [
    | nothing w ts s ↦ absurd (ground arith)
    | the_end w ts s ↦ ground (arith, total_busy-set p.workers_ i waiting exited g)
    | task t rest w ts ↦ ground (arith, total_busy-set p.workers_ i waiting (running t) g)
  ]

  pub worker_step-IsCounted :
      (i : ℕ) (p q : ThreadPool T) → worker_step i p ≡ some q → IsCounted p → IsCounted q
  unfolding worker_step
  worker_step-IsCounted i p q e c = move-IsCounted i p q (get_elem? p.workers_ i) refl e c

  -- How far the pool is from rest: each step of a worker brings it nearer.
  abbrev pub effort : Phase T → ℕ
  effort waiting = 1
  effort (running t) = 3
  effort finishing = 2
  effort exited = 0

  abbrev pub total_effort : List (Phase T) → ℕ
  total_effort [] = 0
  total_effort (w ∷ ws) = effort w + total_effort ws

  abbrev pub work : ThreadPool T → ℕ
  work p = 3 * length p.tasks_ + total_effort p.workers_

  total_effort-set :
      (ws : List (Phase T)) (i : ℕ) (w v : Phase T)
      → get_elem? ws i ≡ some w
      → total_effort (set ws i v) + effort w ≡ total_effort ws + effort v
  total_effort-set [] i w v e = cc
  total_effort-set (x ∷ ws) zero w v e = let h : x ≡ w = cc in rw h (omega arith)
  total_effort-set (x ∷ ws) (suc i) w v e = omega (arith, total_effort-set ws i w v e)

  move-work :
      (i : ℕ) (p q : ThreadPool T) (w : Option (Phase T))
      → get_elem? p.workers_ i ≡ w
      → move i w p ≡ some q
      → work q < work p
  move-work i p q none g e = cc
  move-work i p q (some exited) g e = cc
  move-work i p q (some (running t)) g e =
      ground (arith, total_effort-set p.workers_ i (running t) finishing g)
  move-work i p q (some finishing) g e =
      ground (arith, total_effort-set p.workers_ i finishing waiting g)
  move-work i p q (some waiting) g e = elim (finds p) [
    | nothing w ts s ↦ absurd (ground arith)
    | the_end w ts s ↦ ground (arith, total_effort-set p.workers_ i waiting exited g)
    | task t rest w ts ↦ ground (arith, total_effort-set p.workers_ i waiting (running t) g)
  ]

  -- Every step of a worker, whichever it is, lowers the work that is left: three for each task
  -- queued, and one to three for each worker that has not left.
  pub worker_step-work : (i : ℕ) (p q : ThreadPool T) → worker_step i p ≡ some q → work q < work p
  unfolding worker_step
  worker_step-work i p q e = move-work i p q (get_elem? p.workers_ i) refl e

  move_at_rest :
      (p : ThreadPool T) (i : ℕ) (w : Phase T)
      → p.stop_ ≡ true
      → move i (some w) p ≡ none
      → w ≡ exited
  move_at_rest p i exited s r = refl
  move_at_rest p i (running t) s r = cc
  move_at_rest p i finishing s r = cc
  move_at_rest p i waiting s r = elim (finds p) [
    | nothing w ts live ↦ cc
    | the_end w ts e ↦ absurd (ground arith)
    | task t rest w ts ↦ absurd (ground arith)
  ]

  -- In a stopped pool a worker that cannot move has left.
  pub worker_at_rest :
      (p : ThreadPool T) (i : ℕ) (w : Phase T)
      → p.stop_ ≡ true
      → get_elem? p.workers_ i ≡ some w
      → worker_step i p ≡ none
      → w ≡ exited
  unfolding worker_step
  worker_at_rest p i w s g r = move_at_rest p i w s (sym (ap (λ o. move i o p) g) ∙ r)

  -- The workers in a list move one after the other; `none` where one of them cannot.
  unfoldable pub schedule : List ℕ → ThreadPool T → Option (ThreadPool T)
  schedule [] p = some p
  schedule (i ∷ is) p = elim (worker_step i p) [ none ↦ none | some q ↦ schedule is q ]

  -- However the workers of a pool are scheduled, they make no more steps than there is work: without
  -- new tasks the pool comes to rest, and each step leaves at least one less to do.
  pub schedule-work :
      (is : List ℕ) (p q : ThreadPool T) → schedule is p ≡ some q → length is + work q ≤ work p
  unfolding schedule
  schedule-work [] p q e = let h : p ≡ q = cc in rw h (omega arith)
  schedule-work (i ∷ is) p q e = go (worker_step i p) refl (schedule-work is) e
    where
      go :
          (o : Option (ThreadPool T))
          → worker_step i p ≡ o
          → ((r q : ThreadPool T) → schedule is r ≡ some q → length is + work q ≤ work r)
          → elim o [ none ↦ none | some r ↦ schedule is r ] ≡ some q
          → suc (length is) + work q ≤ work p
      go none s ih e = cc
      go (some r) s ih e = omega (arith, ih r q e, worker_step-work i p r s)
