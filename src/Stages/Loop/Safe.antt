-- ===== src/Stages/Loop/Safe.antt =====
-- HTTP-Protocol: no client of a server is queued twice or while it is armed, and none is forgotten.
use cpp_web_server.Base.{
  ℕ, ◌+◌, ◌==◌, ◌||◌, ◌≡◌, refl, sym, ap, subst, ◌∙◌, Bool, true, false, Option, none, some, List,
  [], ◌∷◌, if◌then◌else◌, ==_iff, Bool-cases, inl, inr, arith,
}
use cpp_web_server.Kernel.{Syscall}
use cpp_web_server.Stages.Loop.{
  Stage, Serving, Event, Handled, set_user, accept_all, receive, on_event, task_done, next_task,
  run_task,
}
use cpp_web_server.Stages.Reply.{hang_up}
use cpp_web_server.Stages.Watch.{Watch, unopened, armed, disarmed, seen, seen_all, parked}
use cpp_web_server.Base.{times}
use cpp_web_server.Stages.Loop.Accept.{seen-hang_up, accept_all-parked}
use cpp_web_server.Stages.Loop.Receive.{
  bit_if, times-lose, all_received, receive-parked, receive_other,
}
use cpp_web_server.Stages.Loop.Reach.{
  Stuck, Laws, disarm, AllNew, lost_empty, event_loses, lose, Reach, begins, event, work,
}

module _ {S E : Type 0} (stage : Stage S E) (k : Stuck S) (laws : Laws stage k) (listenfd : ℕ) where
  armed_at : (fd i : ℕ) (w : ℕ → Watch) → w fd ≡ armed → (fd == i) ≡ true → parked (w i) ≡ 0
  armed_at fd i w a e = ap (λ j. parked (w j)) (sym ((==_iff fd i).0 e)) ∙ ap parked a

  hang_up-parked :
      (fd i : ℕ) (w : ℕ → Watch)
      → w fd ≡ armed
      → parked (seen_all (hang_up fd) (disarm listenfd fd w) i) ≡ parked (w i)
  hang_up-parked fd i w a =
      rw (seen-hang_up fd i (disarm listenfd fd w i))
        (elim (Bool-cases (fd == i)) [ inl e ↦ rw (e, armed_at fd i w a e) | inr e ↦ rw e ])

  listen-parked :
      (fd i : ℕ) (w : ℕ → Watch) → (fd == listenfd) ≡ true → disarm listenfd fd w i ≡ w i
  listen-parked fd i w e = ground arith

  client-parked :
      (fd i : ℕ) (w : ℕ → Watch) (calls : List Syscall)
      → (fd == listenfd) ≡ false
      → w fd ≡ armed
      → ((x : Watch) → (fd == i) ≡ false → seen i calls x ≡ x)
      → parked (seen_all calls (disarm listenfd fd w) i)
        ≡ parked (w i) + (if fd == i then parked (seen i calls disarmed) else 0)
  client-parked fd i w calls c a other = elim (Bool-cases (fd == i)) [
    | inl e ↦ rw (e, c, armed_at fd i w a e) (omega arith)
    | inr e ↦ rw (e, other (w i) e) (omega arith)
  ]

  -- An event: what is disarmed is queued or lost.
  on_event-parked :
      (ev : Event) (s t : Serving S E) (w : ℕ → Watch) (lost : List ℕ) (calls : List Syscall)
      → w ev.fd ≡ armed
      → AllNew ev.accepted w
      → on_event stage listenfd ev s ≡ some (t, calls)
      → (i : ℕ) → times i s.tasks + times i lost ≡ parked (w i)
      → times i t.tasks + times i (lose (event_loses stage k listenfd ev s) ev.fd lost)
        ≡ parked (seen_all calls (disarm listenfd ev.fd w) i)
  unfolding on_event
  on_event-parked ev s t w lost calls a new e i h =
      go (ev.events.epollrdhup || ev.events.epollhup || ev.events.epollerr) (ev.fd == listenfd) refl
        e
    where
      go :
          (bad listens : Bool)
          → (ev.fd == listenfd) ≡ listens
          → (if bad
              then some (s, hang_up ev.fd)
              else if listens
              then accept_all stage ev.accepted s
              else receive stage ev.fd ev.arrival s)
            ≡ some (t, calls)
          → times i t.tasks
              + times i (
                  lose
                    (if bad
                      then false
                      else if listens
                      then false
                      else lost_empty k ev.arrival.stop
                          (all_received stage k laws listenfd ev.fd ev.arrival s))
                    ev.fd
                    lost)
            ≡ parked (seen_all calls (disarm listenfd ev.fd w) i)
      go true listens l e =
          let es : s ≡ t = ground arith in
          let ec : hang_up ev.fd ≡ calls = ground arith in
          ap (λ u. times i u.tasks + times i lost) (sym es)
          ∙ h
          ∙ sym (hang_up-parked ev.fd i w a)
          ∙ ap (λ cs. parked (seen_all cs (disarm listenfd ev.fd w) i)) ec
      go false true l e =
          let (q, p) = accept_all-parked stage ev.accepted s t calls w new e i in
          ap (λ n. n + times i lost) q
          ∙ h
          ∙ sym p
          ∙ ap (λ x. parked (seen i calls x)) (sym (listen-parked ev.fd i w l))
      go false false l e = omega (
        arith,
        h,
        receive-parked stage k laws listenfd ev.fd ev.arrival s t calls e i,
        times-lose
            (lost_empty k ev.arrival.stop (all_received stage k laws listenfd ev.fd ev.arrival s))
            ev.fd i lost,
        client-parked ev.fd i w calls l a
            (λ x n. receive_other stage k laws listenfd ev.fd ev.arrival s t calls e i x n),
      )

  parked_suc : (x : Watch) {n : ℕ} → 1 + n ≡ parked x → (x ≡ disarmed) × (n ≡ 0)
  parked_suc unopened e = absurd (omega arith)
  parked_suc armed e = absurd (omega arith)
  parked_suc disarmed e = (refl, omega arith)

  task-parked :
      (fd i : ℕ) (rest lost : List ℕ) (w : ℕ → Watch) (c d : S) (f g : E) (calls : List Syscall)
      → stage.handle fd c f ≡ some (d, g, calls)
      → times i (fd ∷ rest) + times i lost ≡ parked (w i)
      → times i rest + times i (lose (k.stuck c) fd lost) ≡ parked (seen i calls (w i))
  task-parked fd i rest lost w c d f g calls e h =
      rw (times-lose (k.stuck c) fd i lost) (elim (Bool-cases (fd == i)) [
        | inl m ↦
            let (wd, zeros) =
              parked_suc (w i) {n = times i rest + times i lost} (sym (ground (arith, h, m)) ∙ h) in
            let self : parked (seen i calls disarmed) ≡ (if k.stuck c then 1 else 0) =
              subst (λ j. parked (seen j calls disarmed) ≡ (if k.stuck c then 1 else 0))
                ((==_iff fd i).0 m) (laws.handle_self fd c d f g calls e) in
            rw (m, wd, self) (omega (arith, zeros, bit_if (k.stuck c)))
        | inr m ↦ rw (m, laws.handle_other fd i c d f g calls (w i) e m) (ground (arith, h, m))
      ])

  -- What a task that was run has been.
  pub record Ran (s t : Serving S E) (calls : List Syscall) (fd : ℕ) : Type 0 where
    pub rest : List ℕ
    pub after : S
    pub then_shared : E
    pub was : s.tasks ≡ fd ∷ rest
    pub now : t.tasks ≡ rest
    pub users_now : t.users ≡ (set_user fd after s).users
    pub handled : stage.handle fd (s.users fd) s.shared ≡ some (after, then_shared, calls)

  pub run_task-Ran :
      (s t : Serving S E) (calls : List Syscall) (fd : ℕ)
      → run_task stage s ≡ some (fd, some (t, calls))
      → Ran s t calls fd
  unfolding run_task
  run_task-Ran s t calls fd e = go s.tasks refl e
    where
      done :
          (f : ℕ) (rest : List ℕ) (r : Option (S × E × List Syscall))
          → stage.handle f (s.users f) s.shared ≡ r
          → s.tasks ≡ f ∷ rest
          → ◌≡◌ {A = Option (ℕ × Handled S E)}
              (some (f, task_done stage f rest r s))
              (some (fd, some (t, calls)))
          → Ran s t calls fd
      done f rest none m q e = absurd (ground arith)
      done f rest (some (c, g, more)) m q e = record {
        rest = rest;
        after = c;
        then_shared = g;
        was = ground arith;
        now = ground arith;
        users_now = ground arith;
        handled = ground arith;
      }

      go :
          (l : List ℕ)
          → s.tasks ≡ l
          → next_task stage l s ≡ some (fd, some (t, calls))
          → Ran s t calls fd
      go [] q e = absurd (ground arith)
      go (f ∷ rest) q e = done f rest (stage.handle f (s.users f) s.shared) refl q e

  -- A task.
  run_task-parked :
      (s t : Serving S E) (w : ℕ → Watch) (lost : List ℕ) (calls : List Syscall) (fd : ℕ)
      → run_task stage s ≡ some (fd, some (t, calls))
      → ((i : ℕ) → times i s.tasks + times i lost ≡ parked (w i))
      → (i : ℕ)
      → times i t.tasks + times i (lose (k.stuck (s.users fd)) fd lost)
        ≡ parked (seen_all calls w i)
  run_task-parked s t w lost calls fd e h i =
      let r = run_task-Ran s t calls fd e in
      ap (λ l. times i l + times i (lose (k.stuck (s.users fd)) fd lost)) r.now
      ∙ task-parked fd i r.rest lost w (s.users fd) r.after s.shared r.then_shared calls r.handled
          (ap (λ l. times i l + times i lost) (sym r.was) ∙ h i)

  -- However events and tasks follow one another, from a server with no task queued whose stage keeps
  -- the laws: the tasks queued for a client, and the times that it was lost, are together one where
  -- it is disarmed, and none where it is armed or not open. So no client has two tasks, none has a
  -- task while it waits for events or once it is closed, and none but a lost one is forgotten.
  pub Reach-parked :
      {Ok : Serving S E → Type 0} {start s : Serving S E} {w : ℕ → Watch} {lost : List ℕ}
      → start.tasks ≡ []
      → Reach stage k listenfd Ok start s w lost
      → (i : ℕ) → times i s.tasks + times i lost ≡ parked (w i)
  Reach-parked n (begins ok) i = rw n (ground arith)
  Reach-parked n (event {s} {t} {w} {lost} {calls} r ev a new e ok) i =
      on_event-parked ev s t w lost calls a new e i (Reach-parked n r i)
  Reach-parked n (work {s} {t} {w} {lost} {calls} r fd e ok) i =
      run_task-parked s t w lost calls fd e (Reach-parked n r) i
