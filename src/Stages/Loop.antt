-- ===== src/Stages/Loop.antt =====
-- HTTP-Protocol: the loop of `main`, which the three servers share but for the client's state, for
-- what they do where `recv` gives nothing, and for the task. Those are the record `Stage`.
pub mod Reach
pub mod Accept
pub mod Receive
pub mod Safe
use cpp_web_server.Base.{
  ℕ, suc, Bool, true, false, ◌||◌, not, ◌==◌, Option, none, some, List, [], ◌∷◌, ◌++◌, ltb,
  if◌then◌else◌,
}
use cpp_web_server.Kernel.{
  Syscall, Events, epoll_ctl, epoll_ctl_add, read_events, set_nonblocking, close,
}
use cpp_web_server.Text.{Bytes}
use cpp_web_server.Conn.Transfer.{
  Arrival, RecvStop, peer_closed, recv_would_block, recv_error, received,
}
use cpp_web_server.Stages.Reply.{rearm, hang_up}

-- The length of `users`.
abbrev pub max_users : ℕ
max_users = 65536

-- `S` is the state of a client, `E` what the tasks share besides.
pub record Stage (S E : Type 0) : Type 0 where
  pub fresh : ℕ → S → S
  pub buffer : S → Bytes
  pub set_buffer : Bytes → S → S
  -- What is done where `recv` gives nothing at all.
  pub on_empty : ℕ → List Syscall
  pub handle : ℕ → S → E → Option (S × E × List Syscall)

pub record Serving (S E : Type 0) : Type 0 where
  pub users : ℕ → S
  -- The queue of the thread pool, which is not stopped before the loop ends.
  pub tasks : List ℕ
  pub shared : E

-- An element of `events`, and what the kernel answers when it is dealt with: the descriptors that
-- `accept` gives until it fails, each with whether `epoll_ctl` takes it, and a run of `recv`.
pub record Event : Type 0 where
  pub fd : ℕ
  pub events : Events
  pub accepted : List (ℕ × Bool)
  pub arrival : Arrival

-- What is done with an accepted descriptor, and whether `epoll_ctl` takes it.
abbrev pub add_calls : ℕ → Bool → List Syscall
add_calls fd added =
    set_nonblocking (some fd)
    ∷ epoll_ctl (epoll_ctl_add read_events) (some fd)
    ∷ (if added then [] else close fd ∷ [])

abbrev pub Handled : Type 0 → Type 0 → Type 0
Handled S E = Option (Serving S E × List Syscall)

module _ {S E : Type 0} where
  abbrev pub set_user : ℕ → S → Serving S E → Serving S E
  set_user fd c s = record s { users = λ i. if i == fd then c else s.users i }

  abbrev pub then_more : Handled S E → List Syscall → Handled S E
  then_more none calls = none
  then_more (some (s, more)) calls = some (s, calls ++ more)

  abbrev pub on_users : ℕ → Serving S E × List Syscall → Handled S E
  on_users fd r = if ltb fd max_users then some r else none

module _ {S E : Type 0} (stage : Stage S E) where
  -- The loop over `accept`; `none` where a descriptor is not an index of `users`.
  unfoldable pub accept_all : List (ℕ × Bool) → Serving S E → Handled S E
  accept_all [] s = some (s, [])
  accept_all ((fd, added) ∷ rest) s =
      let more = accept_all rest (set_user fd (stage.fresh fd (s.users fd)) s) in
      if ltb fd max_users then then_more more (add_calls fd added) else none

  -- The buffer cleared.
  abbrev pub cleared : ℕ → Serving S E → Serving S E
  cleared fd s = set_user fd (stage.set_buffer [] (s.users fd)) s

  -- EAGAIN: a task where anything has come.
  abbrev pub would_block : Bytes → ℕ → Serving S E → Serving S E × List Syscall
  would_block [] fd s = (s, stage.on_empty fd)
  would_block (_ ∷ _) fd s = (record s { tasks = s.tasks ++ fd ∷ [] }, [])

  abbrev pub recv_end : RecvStop → ℕ → Serving S E → Serving S E × List Syscall
  recv_end recv_would_block fd s = would_block (stage.buffer (s.users fd)) fd s
  recv_end _ fd s = (cleared fd s, hang_up fd)

  -- The loop over `recv`.
  unfoldable pub receive : ℕ → Arrival → Serving S E → Handled S E
  receive fd a s =
      let c = s.users fd in
      let s' = set_user fd (stage.set_buffer (stage.buffer c ++ received a.chunks) c) s in
      on_users fd (recv_end a.stop fd s')

  -- The body of the loop over `events`.
  unfoldable pub on_event : ℕ → Event → Serving S E → Handled S E
  unfolding accept_all receive
  on_event listenfd ev s =
      if ev.events.epollrdhup || ev.events.epollhup || ev.events.epollerr
      then some (s, hang_up ev.fd)
      else if ev.fd == listenfd
      then accept_all ev.accepted s
      else receive ev.fd ev.arrival s

  abbrev pub events_go : (Serving S E → Handled S E) → Handled S E → Handled S E
  events_go rest none = none
  events_go rest (some (s, calls)) = then_more (rest s) calls

  unfoldable pub on_events : ℕ → List Event → Serving S E → Handled S E
  unfolding on_event
  on_events listenfd [] s = some (s, [])
  on_events listenfd (ev ∷ rest) s = events_go (on_events listenfd rest) (on_event listenfd ev s)

  -- The outer loop, over what `epoll_wait` gives; `none` where it fails.
  unfoldable pub run_loop : ℕ → List (Option (List Event)) → Serving S E → Handled S E
  unfolding on_events
  run_loop listenfd [] s = some (s, [])
  run_loop listenfd (none ∷ rest) s = run_loop listenfd rest s
  run_loop listenfd (some events ∷ rest) s =
      events_go (run_loop listenfd rest) (on_events listenfd events s)

  abbrev pub task_done : ℕ → List ℕ → Option (S × E × List Syscall) → Serving S E → Handled S E
  task_done fd rest none s = none
  task_done fd rest (some (c, e, calls)) s =
      on_users fd (record (set_user fd c s) { tasks = rest; shared = e }, calls)

  -- A worker takes the task in front and runs it; `none` in the first place where there is none.
  abbrev pub next_task : List ℕ → Serving S E → Option (ℕ × Handled S E)
  next_task [] s = none
  next_task (fd ∷ rest) s = some (fd, task_done fd rest (stage.handle fd (s.users fd) s.shared) s)

  unfoldable pub run_task : Serving S E → Option (ℕ × Handled S E)
  run_task s = next_task s.tasks s
