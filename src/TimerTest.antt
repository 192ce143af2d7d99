-- ===== src/TimerTest.antt =====
-- Timer/timer_test.cpp: the first timer, whose list is not sorted and is scanned whole, and its main
-- loop. It serves as the reference for the sorted list of WebServer_Proj/Timer.
use cpp_web_server.Base.{
  ℕ, suc, ◌%◌, ◌+◌, ◌≡◌, refl, sym, ap, ◌∙◌, Bool, true, false, ◌&&◌, Option, none, some, List, [],
  ◌∷◌, ◌++◌, map, leb, ◌==◌, length, if◌then◌else◌, arith,
}
use cpp_web_server.Kernel.{
  Syscall, epoll_ctl, epoll_ctl_add, pipe_events, alarm, sigaction, send_byte, set_nonblocking,
}
use cpp_web_server.Timer
use cpp_web_server.Timer.{expire_front, sigalrm, sigterm}
use cpp_web_server.Timer.Order.{IsSorted, due, alive, expire_front-due}

pub record TestNode : Type 0 where
  pub fd : ℕ
  pub expire : ℕ

pub record TimerTest : Type 0 where
  pub list_ : List TestNode
  pub pipefd_0 : Option ℕ
  pub pipefd_1 : Option ℕ
  pub epoll_fd_ : Option ℕ

abbrev pub test_timeslot : ℕ
test_timeslot = 3

abbrev pub new_timer_test : TimerTest
new_timer_test = record { list_ = []; pipefd_0 = none; pipefd_1 = none; epoll_fd_ = none }

-- `pair` is what `socketpair` gives.
unfoldable pub init : ℕ → Option (ℕ × ℕ) → TimerTest → Bool × TimerTest × List Syscall
init epoll_fd none t = (false, record t { epoll_fd_ = some epoll_fd }, [])
init epoll_fd (some (reader, writer)) t = (
  true,
  record t { pipefd_0 = some reader; pipefd_1 = some writer; epoll_fd_ = some epoll_fd },
  set_nonblocking (some writer)
      ∷ set_nonblocking (some reader)
      ∷ epoll_ctl (epoll_ctl_add pipe_events) (some reader)
      ∷ sigaction sigalrm false
      ∷ sigaction sigterm false
      ∷ alarm test_timeslot
      ∷ [],
)

unfoldable pub handle_signal : ℕ → TimerTest → Syscall
handle_signal sig t = send_byte t.pipefd_1 (sig % 256)

unfoldable pub add : ℕ → ℕ → ℕ → TimerTest → TimerTest
add now fd lifetime_sec t = record t {
  list_ = t.list_ ++ record { fd = fd; expire = now + lifetime_sec } ∷ [];
}

-- The loop of `tick`: the descriptors whose time has passed, and the list that is left.
unfoldable pub scan : ℕ → List TestNode → List ℕ × List TestNode
scan now [] = ([], [])
scan now (it ∷ rest) =
    let later = scan now rest in
    if leb it.expire now then (it.fd ∷ later.0, later.1) else (later.0, it ∷ later.1)

unfoldable pub tick : ℕ → TimerTest → List ℕ × TimerTest × List Syscall
tick now t =
    let (expired, kept) = scan now t.list_ in
    (expired, record t { list_ = kept }, alarm test_timeslot ∷ [])

-- The variables of `main`.
pub record TestMain : Type 0 where
  pub timer : TimerTest
  pub running : Bool
  pub alarm_count : ℕ

abbrev pub is_pipe : Option ℕ → ℕ → Bool
is_pipe none fd = false
is_pipe (some k) fd = k == fd

-- The signals read from the pipe: only SIGTERM matters.
unfoldable pub keep_running : List ℕ → Bool → Bool
keep_running [] running = running
keep_running (sig ∷ sigs) running =
    keep_running sigs
      (if sig == sigalrm then running else if sig == sigterm then false else running)

-- An event, with the clock and the signals read.
pub record TestEvent : Type 0 where
  pub fd : ℕ
  pub epollin : Bool
  pub now : ℕ
  pub signals : List ℕ

unfoldable pub on_event : TestEvent → TestMain → TestMain
on_event e m =
    if is_pipe m.timer.pipefd_0 e.fd && e.epollin
    then record {
      timer = (tick e.now m.timer).1;
      running = keep_running e.signals m.running;
      alarm_count = suc m.alarm_count;
    }
    else m

unfoldable pub on_events : List TestEvent → TestMain → TestMain
on_events [] m = m
on_events (e ∷ es) m = on_events es (on_event e m)

-- What `epoll_wait` gives: events, EINTR, or another error.
pub data TestRound : Type 0 where
  wakes : List TestEvent → TestRound
  interrupts fails : TestRound

unfoldable pub test_loop : List TestRound → TestMain → TestMain
test_loop [] m = m
test_loop (wakes es ∷ rounds) m =
    let after = on_events es m in
    let rest = test_loop rounds after in
    if m.running then if leb 4 after.alarm_count && after.running then after else rest else m
test_loop (interrupts ∷ rounds) m = let rest = test_loop rounds m in if m.running then rest else m
test_loop (fails ∷ rounds) m = m

-- `main`, with the pipe and the clock of its first lines.
unfoldable pub test_main : ℕ → Option (ℕ × ℕ) → ℕ → List TestRound → TestMain
test_main epoll_fd pair now rounds = test_loop rounds (record {
  timer = add now 3 8 (add now 2 5 (add now 1 2 (init epoll_fd pair new_timer_test).1));
  running = true;
  alarm_count = 0;
})

-- The sorted list, without the addresses.
abbrev pub as_test : Timer.TimerNode → TestNode
as_test node = record { fd = node.fd; expire = node.expire }

scan-due :
    (now : ℕ) (l : List Timer.TimerNode)
    → ((scan now (map as_test l)).0 ≡ map (λ it. it.fd) (due now l))
      × ((scan now (map as_test l)).1 ≡ map as_test (alive now l))
unfolding scan due alive
scan-due now [] = (refl, refl)
scan-due now (it ∷ rest) = ground (arith, scan-due now rest)

-- On a list in order of the deadlines, the loop of WebServer_Proj's `tick`, which stops at the first
-- deadline to come, takes and leaves the same as the scan of the whole list.
pub expire_front-scan :
    (now : ℕ) (l : List Timer.TimerNode)
    → IsSorted l
    → ((expire_front now l).0 ≡ (scan now (map as_test l)).0)
      × (map as_test (expire_front now l).1 ≡ (scan now (map as_test l)).1)
expire_front-scan now l s =
    let e = expire_front-due now 0 l s in
    let f = scan-due now l in (e.0 ∙ sym f.0, ap (map as_test) e.1 ∙ sym f.1)

scan-again : (now : ℕ) (l : List TestNode) → (scan now (scan now l).1).0 ≡ []
unfolding scan
scan-again now [] = refl
scan-again now (it ∷ rest) = ground (arith, scan-again now rest)

scan-size : (now : ℕ) (l : List TestNode) → length (scan now l).0 + length (scan now l).1 ≡ length l
unfolding scan
scan-size now [] = refl
scan-size now (it ∷ rest) = ground (arith, scan-size now rest)

-- `tick` loses no timer: each is either reported or kept, and a second `tick` at the same time finds
-- nothing more to report.
pub tick-again :
    (now : ℕ) (t : TimerTest)
    → (length (tick now t).0 + length (tick now t).1.list_ ≡ length t.list_)
      × ((tick now (tick now t).1).0 ≡ [])
unfolding tick
tick-again now t = (scan-size now t.list_, scan-again now t.list_)
