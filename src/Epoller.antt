-- ===== src/Epoller.antt =====
-- WebServer_Proj/Epoller: the wrapper over epoll. Each operation gives the kernel call that it makes;
-- its result is whether the call answered 0.
use cpp_web_server.Base.{ℕ, Option, none, some, List, length, get_elem?, if◌then◌else◌, ltb}
use cpp_web_server.Kernel.{
  Events, Syscall, epoll_ctl, epoll_ctl_add, epoll_ctl_mod, epoll_ctl_del, close,
}

-- `struct epoll_event`
pub record EpollEvent : Type 0 where
  pub fd : ℕ
  pub events : Events

-- `max_events` is the size of the vector `events_`, of which the last `epoll_wait` filled a front.
pub record Epoller : Type 0 where
  pub epoll_fd_ : ℕ
  pub max_events : ℕ
  pub events_ : List EpollEvent

-- The constructor, on what `epoll_create1` gives; it throws where that fails.
unfoldable pub create : ℕ → Option ℕ → List EpollEvent → Option Epoller
create max_events none filled = none
create max_events (some fd) filled =
    some (record { epoll_fd_ = fd; max_events = max_events; events_ = filled })

abbrev pub destroy : Epoller → Syscall
destroy e = close e.epoll_fd_

abbrev pub add_fd : ℕ → Events → Syscall
add_fd fd events = epoll_ctl (epoll_ctl_add events) (some fd)

abbrev pub mod_fd : ℕ → Events → Syscall
mod_fd fd events = epoll_ctl (epoll_ctl_mod events) (some fd)

abbrev pub del_fd : ℕ → Syscall
del_fd fd = epoll_ctl epoll_ctl_del (some fd)

-- What `epoll_wait` gives: events, an interruption by a signal, or another error.
pub data Waited : Type 0 where
  ready : List EpollEvent → Waited
  interrupted wait_failed : Waited

-- The number of events, `none` for -1, and the events in the vector.
unfoldable pub wait : Waited → Epoller → Option ℕ × Epoller
wait (ready evs) e = (some (length evs), record e { events_ = evs })
wait _ e = (none, e)

-- `none` where the assertion fails.
unfoldable pub get_event : ℕ → Epoller → Option EpollEvent
get_event i e = if ltb i e.max_events then get_elem? e.events_ i else none
