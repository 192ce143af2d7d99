-- ===== src/IoModels/Select/Passes.antt =====
-- IO-Models/TCP_Server_Select.cpp: a pass keeps the set, or overruns it.
use cpp_web_server.Base.{
  ℕ, zero, suc, ◌-◌, ◌<◌, ◌≤◌, ◌≢◌, inl, inr, ◌==◌, ◌≡◌, refl, subst, Bool, true, false, Option,
  none, some, List, [], ◌∷◌, ◌++◌, append_assoc, leb, ltb, if◌then◌else◌, Bool-cases, arith,
}
use cpp_web_server.IoModels.{
  Act, accepts, receives, closes, sends, Received, came, gave_nothing, waits, is_open,
  is_open-append, response,
}
use cpp_web_server.IoModels.Select.{
  SelectServer, fd_setsize, Answers, Next, goes_on, waits_on, overruns, fd_set, raise_max,
  accept_client, receive, select_page, on_fd, Pass, passed, stuck_on, overrun_by, unfinished,
  before, goes_next, pass_loop, serve_pass, new_server,
}

-- The set after a log: the listening descriptor and the open clients, none of them above `max_fd`.
pub record IsSelected (listenfd : ℕ) (log : List Act) (s : SelectServer) : Type 0 where
  pub bound : s.max_fd < fd_setsize
  pub covers : (v : ℕ) → s.master_set v ≡ true → v ≤ s.max_fd
  pub exact : (v : ℕ) → s.master_set v ≡ (if v == listenfd then true else is_open v log false)

-- A pass has come to its end, or has set a bit that is not there.
pub data Selected (listenfd : ℕ) (k : Answers) (log : List Act) : Pass → Type 0 where
  ends :
      {s : SelectServer} {acts : List Act}
      → IsSelected listenfd (log ++ acts) s
      → Selected listenfd k log (passed s acts)
  overran :
      {fd : ℕ} → k.accepted ≡ some fd → fd_setsize ≤ fd → Selected listenfd k log (overrun_by fd)

data Steps (listenfd : ℕ) (k : Answers) (log : List Act) : Next → Type 0 where
  goes :
      {s : SelectServer} {acts : List Act}
      → IsSelected listenfd (log ++ acts) s
      → Steps listenfd k log (goes_on s acts)
  overs : {fd : ℕ} → k.accepted ≡ some fd → fd_setsize ≤ fd → Steps listenfd k log (overruns fd)

same-IsSelected :
    (listenfd : ℕ) (log more : List Act) (s : SelectServer)
    → ((v : ℕ) → is_open v (log ++ more) false ≡ is_open v log false)
    → IsSelected listenfd log s
    → IsSelected listenfd (log ++ more) s
same-IsSelected listenfd log more s same t = record {
  bound = t.bound;
  covers = t.covers;
  exact = λ v. rw (same v) (t.exact v);
}

added-IsSelected :
    (listenfd fd : ℕ) (log : List Act) (s : SelectServer)
    → fd < fd_setsize
    → IsSelected listenfd log s
    → IsSelected listenfd (log ++ accepts fd ∷ []) (raise_max fd (fd_set fd true s))
added-IsSelected listenfd fd log s h t = go (ltb s.max_fd fd) refl
  where
    u : SelectServer
    u = fd_set fd true s

    set_exact :
        (v : ℕ)
        → u.master_set v
          ≡ (if v == listenfd then true else is_open v (log ++ accepts fd ∷ []) false)
    set_exact v = rw (is_open-append v log (accepts fd ∷ []) false) (ground (arith, t.exact v))

    go :
        (b : Bool)
        → ltb s.max_fd fd ≡ b
        → IsSelected listenfd (log ++ accepts fd ∷ []) (if b then (record u { max_fd = fd }) else u)
    go true e = record {
      bound = h;
      covers = λ v m. ground (arith, t.covers v, m, e);
      exact = set_exact;
    }
    go false e = record {
      bound = t.bound;
      covers = λ v m. ground (arith, t.covers v, m, e);
      exact = set_exact;
    }

removed-IsSelected :
    (listenfd fd : ℕ) (log : List Act) (s : SelectServer)
    → (fd == listenfd) ≡ false
    → IsSelected listenfd log s
    → IsSelected listenfd (log ++ receives fd ∷ closes fd ∷ []) (fd_set fd false s)
removed-IsSelected listenfd fd log s o t = record {
  bound = t.bound;
  covers = λ v m. t.covers v (ground (arith, m));
  exact = λ v.
      rw (is_open-append v log (receives fd ∷ closes fd ∷ []) false) (ground (arith, t.exact v, o));
}

on_fd-Steps :
    (listenfd : ℕ) (ready : ℕ → Bool) (k : Answers) (log : List Act) (fd : ℕ) (s : SelectServer)
    → IsSelected listenfd log s
    → ((fd : ℕ) → ready fd ≡ true → k.recv fd ≢ waits)
    → ((fd : ℕ) → k.accepted ≡ some fd → 0 < fd)
    → Steps listenfd k log (on_fd listenfd ready k fd s)
unfolding on_fd
on_fd-Steps listenfd ready k log fd s t full positive = go (ready fd) (fd == listenfd) refl refl
  where
    stays : Steps listenfd k log (goes_on s [])
    stays = goes (same-IsSelected listenfd log [] s (λ v. is_open-append v log [] false) t)

    taken :
        (c : ℕ) (a b : Bool)
        → k.accepted ≡ some c
        → ltb 0 c ≡ a
        → ltb c fd_setsize ≡ b
        → Steps listenfd k log (
            if a
            then if b then goes_on (raise_max c (fd_set c true s)) (accepts c ∷ []) else overruns c
            else goes_on s (accepts c ∷ []))
    taken c false b e p q = absurd (ground (arith, p, positive c e))
    taken c true true e p q = goes (added-IsSelected listenfd c log s (ground (arith, q)) t)
    taken c true false e p q = overs e (ground (arith, q))

    accepted : (o : Option ℕ) → k.accepted ≡ o → Steps listenfd k log (accept_client o s)
    accepted none e = stays
    accepted (some c) e = taken c (ltb 0 c) (ltb c fd_setsize) e refl refl

    received :
        (r : Received)
        → k.recv fd ≡ r
        → ready fd ≡ true
        → (fd == listenfd) ≡ false
        → Steps listenfd k log (receive r fd s)
    received came e b o = goes (
        same-IsSelected listenfd log (receives fd ∷ sends fd (response select_page) ∷ []) s
          (λ v. is_open-append v log (receives fd ∷ sends fd (response select_page) ∷ []) false) t)
    received gave_nothing e b o = goes (removed-IsSelected listenfd fd log s o t)
    received waits e b o = absurd (full fd b e)

    go :
        (b c : Bool)
        → ready fd ≡ b
        → (fd == listenfd) ≡ c
        → Steps listenfd k log (
            if b
            then if c then accept_client k.accepted s else receive (k.recv fd) fd s
            else goes_on s [])
    go false c e o = stays
    go true true e o = accepted k.accepted refl
    go true false e o = received (k.recv fd) refl e o

before-Selected :
    (listenfd : ℕ) (k : Answers) (log acts : List Act) (p : Pass)
    → Selected listenfd k (log ++ acts) p
    → Selected listenfd k log (before acts p)
before-Selected listenfd k log acts (passed s more) (ends t) =
    ends (subst (λ l. IsSelected listenfd l s) (append_assoc log acts more) t)
before-Selected listenfd k log acts (overrun_by fd) (overran a h) = overran a h
before-Selected listenfd k log acts (stuck_on fd) o = elim o [ ]
before-Selected listenfd k log acts unfinished o = elim o [ ]

next-Selected :
    (listenfd : ℕ) (k : Answers) (log : List Act) (n : Next) (rest : SelectServer → Pass)
    → ((more : List Act) (s : SelectServer)
        → IsSelected listenfd more s
        → Selected listenfd k more (rest s))
    → Steps listenfd k log n
    → Selected listenfd k log (goes_next rest n)
next-Selected listenfd k log (goes_on s acts) rest ih (goes t) =
    before-Selected listenfd k log acts (rest s) (ih (log ++ acts) s t)
next-Selected listenfd k log (overruns fd) rest ih (overs a h) = overran a h
next-Selected listenfd k log (waits_on fd) rest ih t = elim t [ ]

loop-Selected :
    (fuel : ℕ) (listenfd : ℕ) (ready : ℕ → Bool) (k : Answers) (log : List Act) (fd : ℕ)
    (s : SelectServer)
    → IsSelected listenfd log s
    → ((fd : ℕ) → ready fd ≡ true → k.recv fd ≢ waits)
    → ((fd : ℕ) → k.accepted ≡ some fd → 0 < fd)
    → fd_setsize - fd < fuel
    → Selected listenfd k log (pass_loop fuel listenfd ready k fd s)
unfolding pass_loop
loop-Selected zero listenfd ready k log fd s t full positive h = absurd (omega (arith, h))
loop-Selected (suc fuel) listenfd ready k log fd s t full positive h =
    elim (Bool-cases (leb fd s.max_fd)) [
      | inl q ↦
          let under : fd < fd_setsize = ground (arith, q, t.bound) in
          rw q (
            next-Selected listenfd k log (on_fd listenfd ready k fd s)
              (pass_loop fuel listenfd ready k (suc fd))
              (λ more u t'.
                loop-Selected fuel listenfd ready k more (suc fd) u t' full positive
                  (omega (arith, h, under)))
              (on_fd-Steps listenfd ready k log fd s t full positive))
      | inr q ↦
          rw q (ends (same-IsSelected listenfd log [] s (λ v. is_open-append v log [] false) t))
    ]

-- A pass of the server, where `recv` does not wait on what `select` has found ready, and `accept` gives
-- no 0: the pass comes to its end, `master_set` is the listening descriptor and the clients that are
-- open, and none of them is above `max_fd`; or `accept` has given a descriptor of 1024 or more, for
-- which the set has no bit.
pub serve_pass-Selected :
    (listenfd : ℕ) (ready : ℕ → Bool) (k : Answers) (log : List Act) (s : SelectServer)
    → IsSelected listenfd log s
    → ((fd : ℕ) → ready fd ≡ true → k.recv fd ≢ waits)
    → ((fd : ℕ) → k.accepted ≡ some fd → 0 < fd)
    → Selected listenfd k log (serve_pass listenfd ready k s)
unfolding serve_pass
serve_pass-Selected listenfd ready k log s t full positive =
    loop-Selected (suc fd_setsize) listenfd ready k log 0 s t full positive (omega arith)

pub new_server-IsSelected :
    (listenfd : ℕ) → listenfd < fd_setsize → IsSelected listenfd [] (new_server listenfd)
new_server-IsSelected listenfd h = record {
  bound = h;
  covers = λ v m. ground (arith, m);
  exact = λ v. ground arith;
}
