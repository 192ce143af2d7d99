-- ===== src/Stages/Servers/InRange.antt =====
-- HTTP-Protocol: in a run of the third server every client that is open is in range, which is what
-- the parser's equivalence with the last server's needs.
use cpp_web_server.Base.{
  ℕ, ◌+◌, ◌^◌, ◌<◌, ◌==◌, ◌||◌, ◌≡◌, ◌≢◌, refl, sym, ap, subst, ◌∙◌, Bool, true, false, some, List,
  [], ◌∷◌, ◌++◌, length, length-append, ==_iff, if◌then◌else◌, Bool-cases, inl, inr, arith,
}
use cpp_web_server.Kernel.{Syscall}
use cpp_web_server.Text.{Bytes}
use cpp_web_server.Conn.Reply.{Host}
use cpp_web_server.Conn.Transfer.{
  Arrival, RecvStop, peer_closed, recv_would_block, recv_error, received,
}
use cpp_web_server.Stages.{ClientState}
use cpp_web_server.Stages.Parse.Lines.{IsInRange}
use cpp_web_server.Stages.Handle.Range.{init-IsInRange, handle_client-IsInRange}
use cpp_web_server.Stages.Loop.{
  Serving, Event, set_user, add_calls, accept_all, cleared, would_block, recv_end, receive,
  on_event, run_task,
}
use cpp_web_server.Stages.Loop.Accept.{accept_all-Accepted, seen-hang_up, seen-add_calls}
use cpp_web_server.Stages.Loop.Receive.{with_received, receive_end}
use cpp_web_server.Stages.Loop.Safe.{run_task-Ran, Reach-parked}
use cpp_web_server.Stages.Loop.Reach.{disarm, Reach, begins, event, work}
use cpp_web_server.Stages.Pool.{MySqlPool}
use cpp_web_server.Stages.Reply.{hang_up, rearm}
use cpp_web_server.Stages.Servers.{new_client, third_stage}
use cpp_web_server.Stages.Servers.Keep.{third_stuck, third_stage-Laws}
use cpp_web_server.Stages.Watch.{Watch, unopened, armed, seen, seen_all, seen-append, parked}
use cpp_web_server.Base.{times}

abbrev pub Third : Type 0
Third = Serving (ClientState Bytes) MySqlPool

-- No buffer has come to 2 GiB.
abbrev pub AllShort : Third → Type 0
AllShort s = (i : ℕ) → length (s.users i).buffer < 2 ^ 31

-- Every client that is open is in range.
abbrev OpenInRange : Third → (ℕ → Watch) → Type 0
OpenInRange s w = (i : ℕ) → w i ≢ unopened → IsInRange (s.users i)

add_one-OpenInRange :
    (host : Host) (fd : ℕ) (added : Bool) (s : Third) (w : ℕ → Watch)
    → OpenInRange s w
    → OpenInRange
        (set_user fd ((third_stage host).fresh fd (s.users fd)) s)
        (seen_all (add_calls fd added) w)
add_one-OpenInRange host fd added s w v i n = elim (Bool-cases (i == fd)) [
  | inl e ↦ rw e (init-IsInRange fd (s.users fd))
  | inr e ↦ rw e (v i (λ m. n (seen-add_calls fd i added (w i) ∙ rw (==_sym fd i e) m)))
]
  where
    ==_sym : (a b : ℕ) → (b == a) ≡ false → (a == b) ≡ false
    ==_sym a b e = ground arith

accept_all-OpenInRange :
    (host : Host) (accepted : List (ℕ × Bool)) (s t : Third) (calls : List Syscall) (w : ℕ → Watch)
    → OpenInRange s w
    → accept_all (third_stage host) accepted s ≡ some (t, calls)
    → OpenInRange t (seen_all calls w)
unfolding accept_all
accept_all-OpenInRange host [] s t calls w v e =
    let es : s ≡ t = ground arith in
    let ec : [] ≡ calls = ground arith in
    subst (λ u. OpenInRange u (seen_all calls w)) es
      (subst (λ cs. OpenInRange s (seen_all cs w)) ec v)
accept_all-OpenInRange host ((fd, added) ∷ rest) s t calls w v e =
    let r = accept_all-Accepted (third_stage host) fd added rest s t calls e in
    let all =
      accept_all-OpenInRange host rest _ t r.more (seen_all (add_calls fd added) w)
        (add_one-OpenInRange host fd added s w v) r.then_all in
    λ i n. all i λ m. n (
      ap (λ cs. seen i cs (w i)) (sym r.all_calls)
      ∙ seen-append i (add_calls fd added) r.more (w i)
      ∙ m)

module _ (host : Host) (fd listenfd : ℕ) where
  -- A descriptor that is open behind its event was open before it.
  open_before :
      (i : ℕ) (calls : List Syscall) (w : ℕ → Watch)
      → w fd ≡ armed
      → ((x : Watch) → (fd == i) ≡ false → seen i calls x ≡ x)
      → seen_all calls (disarm listenfd fd w) i ≢ unopened
      → w i ≢ unopened
  open_before i calls w o other n m = elim (Bool-cases (fd == i)) [
    | inl e ↦
        (let same : armed ≡ unopened = sym o ∙ ap w ((==_iff fd i).0 e) ∙ m in
          absurd (ground (arith, same)))
    | inr e ↦ n (other (disarm listenfd fd w i) e ∙ rw (e, m))
  ]

  -- The client of a socket that is closed.
  hung_up-OpenInRange :
      (s t : Third) (w : ℕ → Watch)
      → OpenInRange s w
      → w fd ≡ armed
      → ((i : ℕ) → (i == fd) ≡ false → t.users i ≡ s.users i)
      → OpenInRange t (seen_all (hang_up fd) (disarm listenfd fd w))
  hung_up-OpenInRange s t w v o same i n = elim (Bool-cases (i == fd)) [
    | inl e ↦ absurd (
        n (
          seen-hang_up fd i (disarm listenfd fd w i)
          ∙ (let f : (fd == i) ≡ true = ground (arith, e) in rw f)))
    | inr e ↦
        rw (same i e) (v i (open_before i (hang_up fd) w o (λ x f. seen-hang_up fd i x ∙ rw f) n))
  ]

  grown-IsInRange :
      (c : ClientState Bytes) (more : Bytes)
      → length (c.buffer ++ more) < 2 ^ 31
      → IsInRange c
      → IsInRange (record c { buffer = c.buffer ++ more })
  grown-IsInRange c more b r = record {
    short = b;
    within = omega (arith, r.within, length-append c.buffer more);
    int_length = r.int_length;
  }

  abbrev read_by : Arrival → Third → Third
  read_by a s = with_received (third_stage host) third_stuck (third_stage-Laws host) listenfd fd a s

  read_by-IsInRange :
      (a : Arrival) (s : Third) (i : ℕ)
      → length ((read_by a s).users i).buffer < 2 ^ 31
      → IsInRange (s.users i)
      → IsInRange ((read_by a s).users i)
  read_by-IsInRange a s i b r = elim (Bool-cases (i == fd)) [
    | inl e ↦
        (let f : i ≡ fd = (==_iff i fd).0 e in
          rw e (
            grown-IsInRange (s.users fd) (received a.chunks)
              (subst
                (λ u.
                  length
                    (if u
                      then (record (s.users fd) {
                        buffer = (s.users fd).buffer ++ received a.chunks;
                      })
                      else s.users i).buffer
                  < 2 ^ 31)
                e b)
              (subst (λ j. IsInRange (s.users j)) f r)))
    | inr e ↦ rw e r
  ]

  -- A client whose socket was read.
  abbrev StaysOpen : (ℕ → Watch) → Third × List Syscall → Type 0
  StaysOpen w r = AllShort r.0 → OpenInRange r.0 (seen_all r.1 (disarm listenfd fd w))

  recv_end-StaysOpen :
      (stop : RecvStop) (a : Arrival) (s : Third) (w : ℕ → Watch)
      → OpenInRange s w
      → w fd ≡ armed
      → StaysOpen w (recv_end (third_stage host) stop fd (read_by a s))
  recv_end-StaysOpen peer_closed a s w v o short =
      hung_up-OpenInRange s (cleared (third_stage host) fd (read_by a s)) w v o (λ i e. rw e)
  recv_end-StaysOpen recv_error a s w v o short =
      hung_up-OpenInRange s (cleared (third_stage host) fd (read_by a s)) w v o (λ i e. rw e)
  recv_end-StaysOpen recv_would_block a s w v o short = go ((read_by a s).users fd).buffer short
    where
      go : (b : Bytes) → StaysOpen w (would_block (third_stage host) b fd (read_by a s))
      go [] short i n = read_by-IsInRange a s i (short i) (
          v i (
            open_before i (rearm fd ∷ []) w o (λ x f. (third_stage-Laws host).empty_other fd i x f)
              n))
      go (x ∷ xs) short i n =
          read_by-IsInRange a s i (short i) (v i (open_before i [] w o (λ x f. refl) n))

on_event-OpenInRange :
    (host : Host) (listenfd : ℕ) (ev : Event) (s t : Third) (w : ℕ → Watch) (calls : List Syscall)
    → OpenInRange s w
    → w ev.fd ≡ armed
    → AllShort t
    → on_event (third_stage host) listenfd ev s ≡ some (t, calls)
    → OpenInRange t (seen_all calls (disarm listenfd ev.fd w))
unfolding on_event
on_event-OpenInRange host listenfd ev s t w calls v o short e =
    go (ev.events.epollrdhup || ev.events.epollhup || ev.events.epollerr) (ev.fd == listenfd) refl e
  where
    go :
        (bad listens : Bool)
        → (ev.fd == listenfd) ≡ listens
        → (if bad
            then some (s, hang_up ev.fd)
            else if listens
            then accept_all (third_stage host) ev.accepted s
            else receive (third_stage host) ev.fd ev.arrival s)
          ≡ some (t, calls)
        → OpenInRange t (seen_all calls (disarm listenfd ev.fd w))
    go true listens l e =
        let es : s ≡ t = ground arith in
        let ec : hang_up ev.fd ≡ calls = ground arith in
        subst (λ cs. OpenInRange t (seen_all cs (disarm listenfd ev.fd w))) ec
          (hung_up-OpenInRange host ev.fd listenfd s t w v o (λ i m. ap (λ u. u.users i) (sym es)))
    go false true l e =
        let all = accept_all-OpenInRange host ev.accepted s t calls w v e in
        λ i n. all i (λ m. n (ap (seen i calls) (listening i l) ∙ m))
      where
        listening : (i : ℕ) → (ev.fd == listenfd) ≡ true → disarm listenfd ev.fd w i ≡ w i
        listening i l = ground (arith, l)
    go false false l e =
        subst (StaysOpen host ev.fd listenfd w)
          (receive_end (third_stage host) third_stuck (third_stage-Laws host) listenfd ev.fd
            ev.arrival s t calls e)
          (recv_end-StaysOpen host ev.fd listenfd ev.arrival.stop ev.arrival s w v o) short

run_task-OpenInRange :
    (host : Host) (listenfd fd : ℕ) (s t : Third) (w : ℕ → Watch) (calls : List Syscall)
    → OpenInRange s w
    → w fd ≢ unopened
    → run_task (third_stage host) s ≡ some (fd, some (t, calls))
    → OpenInRange t (seen_all calls w)
run_task-OpenInRange host listenfd fd s t w calls v o e i n =
    let laws = third_stage-Laws host in
    let r = run_task-Ran (third_stage host) third_stuck laws listenfd s t calls fd e in
    subst (λ u. IsInRange (u i)) (sym r.users_now)
      (elim (Bool-cases (i == fd)) [
        | inl m ↦ rw m (
            handle_client-IsInRange host fd (s.users fd) r.after s.shared r.then_shared calls
              (v fd o) r.handled)
        | inr m ↦ rw m (
            v i (λ u. n (
              laws.handle_other fd i (s.users fd) r.after s.shared r.then_shared calls (w i)
                r.handled (let f : (fd == i) ≡ false = ground (arith, m) in f)
              ∙ u)))
      ])

queued_open :
    (host : Host) (listenfd fd : ℕ) (s t : Third) (w : ℕ → Watch) (lost : List ℕ)
    (calls : List Syscall)
    → run_task (third_stage host) s ≡ some (fd, some (t, calls))
    → times fd s.tasks + times fd lost ≡ parked (w fd)
    → w fd ≢ unopened
queued_open host listenfd fd s t w lost calls e c u =
    let r =
      run_task-Ran (third_stage host) third_stuck (third_stage-Laws host) listenfd s t calls fd e in
    absurd (ground (arith, ap (times fd) r.was, c, ap parked u))

-- `main` of the third server before its loop.
abbrev pub third_start : MySqlPool → Third
third_start pool = record { users = λ _. new_client []; tasks = []; shared = pool }

third_start-IsInRange : IsInRange (new_client {B = Bytes} [])
third_start-IsInRange = ground arith

-- However events and tasks follow one another in the third server, as long as no buffer comes to
-- 2 GiB: every client whose descriptor is open is in range, its position in its buffer and its
-- length an `int`.
pub third_stage-IsInRange :
    (host : Host) (listenfd : ℕ) (pool : MySqlPool) {s : Third} {w : ℕ → Watch} {lost : List ℕ}
    → Reach (third_stage host) third_stuck listenfd AllShort (third_start pool) s w lost
    → (i : ℕ) → w i ≢ unopened
    → IsInRange (s.users i)
third_stage-IsInRange host listenfd pool (begins ok) i n = third_start-IsInRange
third_stage-IsInRange host listenfd pool (event {s} {t} {w} {lost} {calls} r ev a new e ok) i n =
    on_event-OpenInRange host listenfd ev s t w calls (third_stage-IsInRange host listenfd pool r) a
      ok e i n
third_stage-IsInRange host listenfd pool (work {s} {t} {w} {lost} {calls} r fd e ok) i n =
    run_task-OpenInRange host listenfd fd s t w calls (third_stage-IsInRange host listenfd pool r)
      (queued_open host listenfd fd s t w lost calls e
        (Reach-parked (third_stage host) third_stuck (third_stage-Laws host) listenfd refl r fd))
      e i n
