-- ===== src/IoModels/Poll/Rounds.antt =====
-- IO-Models/TCP_Server_Poll.cpp: a pass over the array ends, or waits for the client that it has accepted.
use cpp_web_server.Base.{
  ℕ, zero, suc, ◌-◌, ◌<◌, ◌≢◌, inl, inr, ◌≡◌, refl, sym, subst, ◌∙◌, Bool, true, some, List, [],
  ◌++◌, append_assoc, ltb, Bool-cases, arith,
}
use cpp_web_server.IoModels.{Act, waits}
use cpp_web_server.IoModels.Poll.{
  PollServer, Answers, Next, goes_on, waits_on, on_entry, Pass, passed, stuck_on, unfinished,
  before, goes_next, pass_loop, poll, serve_pass,
}
use cpp_web_server.IoModels.Poll.Table.{listed-mark, length-mark, mark-ready, mark-first}
use cpp_web_server.IoModels.Poll.Entries.{entry, IsTable, Told, IsFresh}
use cpp_web_server.IoModels.Poll.Passes.{
  Steps, goes, sticks, same-IsTable, first-Steps, later-Steps,
}
use cpp_web_server.IoModels.Poll.{new_server}

-- A pass has come to its end, or it waits in `recv` on the descriptor that it has accepted.
pub data Outcome (listenfd : ℕ) (k : Answers) (log : List Act) : Pass → Type 0 where
  ends :
      {s : PollServer} {acts : List Act}
      → IsTable listenfd (log ++ acts) s
      → Outcome listenfd k log (passed s acts)
  awaits : {fd : ℕ} → k.accepted ≡ some fd → Outcome listenfd k log (stuck_on fd)

before-Outcome :
    (listenfd : ℕ) (k : Answers) (log acts : List Act) (p : Pass)
    → Outcome listenfd k (log ++ acts) p
    → Outcome listenfd k log (before acts p)
before-Outcome listenfd k log acts (passed s more) (ends t) =
    ends (subst (λ l. IsTable listenfd l s) (append_assoc log acts more) t)
before-Outcome listenfd k log acts (stuck_on fd) (awaits a) = awaits a
before-Outcome listenfd k log acts unfinished o = elim o [ ]

next-Outcome :
    (listenfd : ℕ) (k : Answers) (log : List Act) (bound : ℕ) (n : Next)
    (rest : ℕ → PollServer → Pass)
    → ((more : List Act) (i : ℕ) (s : PollServer)
        → IsTable listenfd more s
        → Told k s
        → 0 < i
        → s.nfds - i < bound
        → Outcome listenfd k more (rest i s))
    → Steps listenfd k log bound n
    → Outcome listenfd k log (goes_next rest n)
next-Outcome listenfd k log bound (goes_on i s acts) rest ih (goes t told p h) =
    before-Outcome listenfd k log acts (rest i s) (ih (log ++ acts) i s t told p h)
next-Outcome listenfd k log bound (waits_on fd) rest ih (sticks a) = awaits a

loop-Outcome :
    (fuel : ℕ) (listenfd : ℕ) (k : Answers) (log : List Act) (i : ℕ) (s : PollServer)
    → IsTable listenfd log s
    → Told k s
    → 0 < i
    → s.nfds - i < fuel
    → Outcome listenfd k log (pass_loop fuel listenfd k i s)
unfolding pass_loop
loop-Outcome zero listenfd k log i s t told p h = absurd (omega (arith, h))
loop-Outcome (suc fuel) listenfd k log i s t told p h = elim (Bool-cases (ltb i s.nfds)) [
  | inl q ↦ rw q (
      next-Outcome listenfd k log (s.nfds - i) (on_entry listenfd k i s) (pass_loop fuel listenfd k)
        (λ more j u t' told' p' h'.
          loop-Outcome fuel listenfd k more j u t' told' p' (omega (arith, h, h')))
        (later-Steps listenfd k log i s t told p (ground (arith, q))))
  | inr q ↦ rw q (ends (same-IsTable listenfd log s t))
]

poll-IsTable :
    (listenfd : ℕ) (ready : ℕ → Bool) (log : List Act) (s : PollServer)
    → IsTable listenfd log s
    → IsTable listenfd log (poll ready s)
poll-IsTable listenfd ready log s t = record {
  whole = length-mark s.nfds ready s.fds ∙ t.whole;
  room = t.room;
  listens = t.listens;
  first = mark-first s.nfds ready s.fds ∙ t.first;
  exact = λ v. listed-mark v s.nfds s.nfds ready s.fds ∙ t.exact v;
}

poll-Told :
    (listenfd : ℕ) (ready : ℕ → Bool) (k : Answers) (log : List Act) (s : PollServer)
    → IsTable listenfd log s
    → ((fd : ℕ) → ready fd ≡ true → k.recv fd ≢ waits)
    → Told k (poll ready s)
poll-Told listenfd ready k log s t full j h r = inl (
    full (entry (poll ready s) j).fd
      (sym (mark-ready s.nfds j ready s.fds h (omega (arith, t.whole, t.room))) ∙ r))

-- A pass of the server, where `recv` does not wait on what `poll` has found ready, and `accept` gives a
-- descriptor that is not in use: the pass comes to its end with the listening descriptor in front and
-- exactly one entry for each open client, and no more than 1024 in all; or it waits in `recv` on the
-- client that it has just accepted.
pub serve_pass-Outcome :
    (listenfd : ℕ) (ready : ℕ → Bool) (k : Answers) (log : List Act) (s : PollServer)
    → IsTable listenfd log s
    → ((fd : ℕ) → ready fd ≡ true → k.recv fd ≢ waits)
    → IsFresh listenfd log k
    → Outcome listenfd k log (serve_pass listenfd ready k s)
unfolding serve_pass pass_loop
serve_pass-Outcome listenfd ready k log s t full f =
    let q : ltb 0 s.nfds ≡ true = ground (arith, t.listens) in
    let u = poll ready s in
    rw q (
      next-Outcome listenfd k log (suc s.nfds) (on_entry listenfd k 0 u)
        (pass_loop (suc s.nfds) listenfd k)
        (λ more j v t' told' p' h'. loop-Outcome (suc s.nfds) listenfd k more j v t' told' p' h')
        (first-Steps listenfd k log u (poll-IsTable listenfd ready log s t)
          (poll-Told listenfd ready k log s t full) f))

pub new_server-IsTable : (listenfd : ℕ) → IsTable listenfd [] (new_server listenfd)
new_server-IsTable listenfd = record {
  whole = refl;
  room = omega arith;
  listens = omega arith;
  first = refl;
  exact = λ v. ground arith;
}
