-- ===== src/Stages/Loop/Reach.antt =====
-- HTTP-Protocol: the runs of a server, as steps of the loop and of the workers in any order.
use cpp_web_server.Base.{
  ℕ, ◌==◌, ◌&&◌, ◌||◌, not, ◌≡◌, Bool, true, false, some, List, [], ◌∷◌, ◌++◌, if◌then◌else◌,
}
use cpp_web_server.Kernel.{Syscall}
use cpp_web_server.Text.{Bytes}
use cpp_web_server.Conn.Transfer.{RecvStop, recv_would_block, received}
use cpp_web_server.Stages.Loop.{Stage, Serving, Event, add_calls, on_event, run_task}
use cpp_web_server.Stages.Watch.{Watch, unopened, armed, disarmed, seen, seen_all, parked}

-- Where a server leaves a client disarmed without a task: after a task, by the client's state, and
-- where `recv` has given nothing.
pub record Stuck (S : Type 0) : Type 0 where
  pub stuck : S → Bool
  pub empty_stuck : Bool

-- What a stage promises of the calls that it makes for a client: they touch no other descriptor,
-- and they arm or close it, but where it is stuck.
pub record Laws {S E : Type 0} (stage : Stage S E) (k : Stuck S) : Type 0 where
  pub empty_other : (fd i : ℕ) (w : Watch) → (fd == i) ≡ false → seen i (stage.on_empty fd) w ≡ w
  pub empty_self :
      (fd : ℕ) → parked (seen fd (stage.on_empty fd) disarmed) ≡ (if k.empty_stuck then 1 else 0)
  pub handle_other :
      (fd i : ℕ) (c d : S) (e f : E) (calls : List Syscall) (w : Watch)
      → stage.handle fd c e ≡ some (d, f, calls)
      → (fd == i) ≡ false
      → seen i calls w ≡ w
  pub handle_self :
      (fd : ℕ) (c d : S) (e f : E) (calls : List Syscall)
      → stage.handle fd c e ≡ some (d, f, calls)
      → parked (seen fd calls disarmed) ≡ (if k.stuck c then 1 else 0)

-- The kernel disarms the descriptor whose event it delivers, unless it is the listening one, which
-- is not one-shot.
abbrev pub disarm : ℕ → ℕ → (ℕ → Watch) → ℕ → Watch
disarm listenfd fd w i = if (fd == i) && not (fd == listenfd) then disarmed else w i

-- `accept` gives descriptors that are not open.
abbrev pub AllNew : List (ℕ × Bool) → (ℕ → Watch) → Type 0
AllNew [] w = Unit {0}
AllNew ((fd, added) ∷ rest) w = (w fd ≡ unopened) × AllNew rest (seen_all (add_calls fd added) w)

abbrev pub lost_empty : {S : Type 0} → Stuck S → RecvStop → Bytes → Bool
lost_empty k recv_would_block [] = k.empty_stuck
lost_empty k _ _ = false

abbrev pub lose : Bool → ℕ → List ℕ → List ℕ
lose true fd lost = fd ∷ lost
lose false fd lost = lost

module _ {S E : Type 0} (stage : Stage S E) (k : Stuck S) (listenfd : ℕ) where
  -- Whether an event leaves its client disarmed with no task.
  abbrev pub event_loses : Event → Serving S E → Bool
  event_loses ev s =
      if ev.events.epollrdhup || ev.events.epollhup || ev.events.epollerr
      then false
      else if ev.fd == listenfd
      then false
      else lost_empty k ev.arrival.stop (
          stage.buffer (
            stage.set_buffer (stage.buffer (s.users ev.fd) ++ received ev.arrival.chunks)
              (s.users ev.fd)))

  -- The states that a server comes to, with what the kernel watches, and the clients that are lost:
  -- disarmed by a step that leaves no task for them. Every state of the run meets `Ok`.
  pub data Reach (Ok : Serving S E → Type 0) (start : Serving S E)
      : Serving S E → (ℕ → Watch) → List ℕ → Type 0 where
    begins : Ok start → Reach Ok start start (λ i. if listenfd == i then armed else unopened) []
    event :
        {s t : Serving S E} {w : ℕ → Watch} {lost : List ℕ} {calls : List Syscall}
        → Reach Ok start s w lost
        → (ev : Event) → w ev.fd ≡ armed
        → AllNew ev.accepted w
        → on_event stage listenfd ev s ≡ some (t, calls)
        → Ok t
        → Reach Ok start t
            (seen_all calls (disarm listenfd ev.fd w))
            (lose (event_loses ev s) ev.fd lost)
    work :
        {s t : Serving S E} {w : ℕ → Watch} {lost : List ℕ} {calls : List Syscall}
        → Reach Ok start s w lost
        → (fd : ℕ) → run_task stage s ≡ some (fd, some (t, calls))
        → Ok t
        → Reach Ok start t (seen_all calls w) (lose (k.stuck (s.users fd)) fd lost)
