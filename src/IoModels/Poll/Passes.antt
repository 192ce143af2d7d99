-- ===== src/IoModels/Poll/Passes.antt =====
-- IO-Models/TCP_Server_Poll.cpp: a round of the loop over the array.
use cpp_web_server.Base.{
  ℕ, suc, ◌-◌, ◌<◌, inl, inr, ◌==◌, ◌≡◌, refl, sym, ap, ◌∙◌, Bool, true, false, Option, none, some,
  List, [], ◌∷◌, ◌++◌, leb, ltb, if◌then◌else◌, Bool-cases, arith,
}
use cpp_web_server.IoModels.{
  Act, accepts, receives, closes, sends, Received, came, gave_nothing, waits, is_open,
  is_open-append, response,
}
use cpp_web_server.IoModels.Poll.{
  PollServer, max_fds, Answers, Next, goes_on, waits_on, new_entry, accept_client, receive,
  on_entry, poll_page,
}
use cpp_web_server.IoModels.Poll.Entries.{
  entry, IsTable, Told, IsTable-log, not_listenfd, remove_entry-IsTable, remove_entry-Told, IsFresh,
  new_entry-IsTable, new_entry-Told,
}

pub data Steps (listenfd : ℕ) (k : Answers) (log : List Act) (bound : ℕ) : Next → Type 0 where
  goes :
      {i : ℕ} {s : PollServer} {acts : List Act}
      → IsTable listenfd (log ++ acts) s
      → Told k s
      → 0 < i
      → s.nfds - i < bound
      → Steps listenfd k log bound (goes_on i s acts)
  sticks : {fd : ℕ} → k.accepted ≡ some fd → Steps listenfd k log bound (waits_on fd)

pub same-IsTable :
    (listenfd : ℕ) (log : List Act) (s : PollServer)
    → IsTable listenfd log s
    → IsTable listenfd (log ++ []) s
same-IsTable listenfd log s t = IsTable-log listenfd log [] s (λ v. is_open-append v log [] false) t

-- An entry behind the first one.
pub later-Steps :
    (listenfd : ℕ) (k : Answers) (log : List Act) (i : ℕ) (s : PollServer)
    → IsTable listenfd log s
    → Told k s
    → 0 < i
    → i < s.nfds
    → Steps listenfd k log (s.nfds - i) (on_entry listenfd k i s)
unfolding on_entry
later-Steps listenfd k log i s t told p h =
    go (entry s i).revents ((entry s i).fd == listenfd) refl (not_listenfd listenfd log s i t p h)
  where
    fd : ℕ
    fd = (entry s i).fd

    received :
        (r : Received)
        → k.recv fd ≡ r
        → (entry s i).revents ≡ true
        → Steps listenfd k log (s.nfds - i) (receive r fd i s)
    received came e b =
        goes
          (IsTable-log listenfd log (receives fd ∷ sends fd (response poll_page) ∷ []) s
            (λ v. is_open-append v log (receives fd ∷ sends fd (response poll_page) ∷ []) false) t)
          told (omega arith) (omega (arith, h))
    received gave_nothing e b =
        goes (remove_entry-IsTable listenfd log i s t p h)
          (remove_entry-Told k i s (omega (arith, t.whole, t.room)) h told) p (omega (arith, h, p))
    received waits e b = elim (told i h b) [ inl n ↦ absurd (n e) | inr a ↦ sticks a ]

    go :
        (b c : Bool)
        → (entry s i).revents ≡ b
        → c ≡ false
        → Steps listenfd k log (s.nfds - i) (
            if b
            then if c then accept_client k.accepted i s else receive (k.recv fd) fd i s
            else goes_on (suc i) s [])
    go false c e o = goes (same-IsTable listenfd log s t) told (omega arith) (omega (arith, h))
    go true true e o = absurd (ground (arith, o))
    go true false e o = received (k.recv fd) refl e

-- The first one, which listens.
pub first-Steps :
    (listenfd : ℕ) (k : Answers) (log : List Act) (s : PollServer)
    → IsTable listenfd log s
    → Told k s
    → IsFresh listenfd log k
    → Steps listenfd k log (suc s.nfds) (on_entry listenfd k 0 s)
unfolding on_entry
first-Steps listenfd k log s t told f =
    go (entry s 0).revents ((entry s 0).fd == listenfd) (ground (arith, t.first))
  where
    stays : Steps listenfd k log (suc s.nfds) (goes_on 1 s [])
    stays = goes (same-IsTable listenfd log s t) told (omega arith) (omega arith)

    taken :
        (fd : ℕ) (b c : Bool)
        → k.accepted ≡ some fd
        → ltb 0 fd ≡ b
        → leb max_fds s.nfds ≡ c
        → Steps listenfd k log (suc s.nfds) (
            if b
            then if c
              then goes_on 1 s (accepts fd ∷ closes fd ∷ [])
              else goes_on 1 (new_entry fd s) (accepts fd ∷ [])
            else goes_on 1 s (accepts fd ∷ []))
    taken fd false c a e g = absurd (ground (arith, e, f.positive fd a))
    taken fd true true a e g =
        goes
          (IsTable-log listenfd log (accepts fd ∷ closes fd ∷ []) s
            (λ v. is_open-append v log (accepts fd ∷ closes fd ∷ []) false ∙ shut v) t)
          told (omega arith) (omega arith)
      where
        shut :
            (v : ℕ)
            → (if fd == v then false else if fd == v then true else is_open v log false)
              ≡ is_open v log false
        shut v = elim (Bool-cases (fd == v)) [
          | inl q ↦
              let same : v ≡ fd = ground (arith, q) in
              rw q (sym (ap (λ u. is_open u log false) same ∙ f.closed fd a))
          | inr q ↦ rw q refl
        ]
    taken fd true false a e g =
        let under : s.nfds < max_fds = ground (arith, g) in
        goes (new_entry-IsTable listenfd log fd s t under (f.other fd a) (f.closed fd a))
          (new_entry-Told k fd s (omega (arith, under, t.whole)) a told) (omega arith) (omega arith)

    accepted :
        (o : Option ℕ) → k.accepted ≡ o → Steps listenfd k log (suc s.nfds) (accept_client o 0 s)
    accepted none a = stays
    accepted (some fd) a = taken fd (ltb 0 fd) (leb max_fds s.nfds) a refl refl

    go :
        (b c : Bool)
        → c ≡ true
        → Steps listenfd k log (suc s.nfds) (
            if b
            then if c
              then accept_client k.accepted 0 s
              else receive (k.recv (entry s 0).fd) (entry s 0).fd 0 s
            else goes_on 1 s [])
    go false c o = stays
    go true false o = absurd (ground (arith, o))
    go true true o = accepted k.accepted refl
