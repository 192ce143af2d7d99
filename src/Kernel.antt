-- ===== src/Kernel.antt =====
-- The words in which the components speak to the kernel: sets of epoll flags, and the calls that
-- are made, in order. What the kernel answers is an argument of the operation that asks.
-- A file descriptor is a number; the -1 that stands for "no descriptor" is `none`.
use cpp_web_server.Base.{ℕ, Bool, true, false, Option, List}

-- `sockaddr_in`, with the port in network byte order.
pub record SockAddr : Type 0 where
  pub sin_addr : ℕ
  pub sin_port : ℕ

-- A `uint32_t` of epoll flags, one field for each flag that the source names.
pub record Events : Type 0 where
  pub epollin : Bool
  pub epollout : Bool
  pub epollerr : Bool
  pub epollhup : Bool
  pub epollrdhup : Bool
  pub epollet : Bool
  pub epolloneshot : Bool

abbrev pub no_events : Events
no_events = record {
  epollin = false;
  epollout = false;
  epollerr = false;
  epollhup = false;
  epollrdhup = false;
  epollet = false;
  epolloneshot = false;
}

-- EPOLLIN | EPOLLET | EPOLLRDHUP | EPOLLONESHOT
abbrev pub read_events : Events
read_events = record no_events {
  epollin = true;
  epollet = true;
  epollrdhup = true;
  epolloneshot = true;
}

-- EPOLLOUT | EPOLLET | EPOLLRDHUP | EPOLLONESHOT
abbrev pub write_events : Events
write_events = record no_events {
  epollout = true;
  epollet = true;
  epollrdhup = true;
  epolloneshot = true;
}

-- EPOLLIN | EPOLLET | EPOLLRDHUP
abbrev pub listen_events : Events
listen_events = record no_events { epollin = true; epollet = true; epollrdhup = true }

-- EPOLLIN
abbrev pub pipe_events : Events
pipe_events = record no_events { epollin = true }

-- The operation of `epoll_ctl`; only an ADD and a MOD carry events.
pub data EpollOp : Type 0 where
  epoll_ctl_add epoll_ctl_mod : Events → EpollOp
  epoll_ctl_del : EpollOp

pub data Syscall : Type 0 where
  epoll_ctl : EpollOp → Option ℕ → Syscall
  set_nonblocking : Option ℕ → Syscall
  close : ℕ → Syscall
  munmap : ℕ → Syscall
  alarm : ℕ → Syscall
  sigaction : ℕ → Bool → Syscall
  sigpipe_ignored : Syscall
  send_byte : Option ℕ → ℕ → Syscall
  send : ℕ → List ℕ → Syscall
  -- A vector of bytes and one that is mapped, `none` where `mmap` was refused.
  writev : ℕ → List ℕ → Option (List ℕ) → Syscall
