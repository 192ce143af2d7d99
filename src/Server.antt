-- ===== src/Server.antt =====
-- WebServer_Proj/WebServer: the event loop and its handlers. A handler takes what the kernel answers
-- to it, gives the new state, and lists the kernel calls made. Log lines are left out.
pub mod Book
pub mod Expiry
pub mod Invariant
pub mod Loop
pub mod Handlers
pub mod Timeouts
pub mod Failures
use cpp_web_server.Base.{
  ℕ, zero, suc, ◌+◌, ◌==◌, Bool, true, false, ◌&&◌, ◌||◌, Option, none, some, List, [], ◌∷◌, ◌++◌,
  ℤ, pos, leb, if◌then◌else◌,
}
use cpp_web_server.Kernel.{
  SockAddr, Events, read_events, write_events, listen_events, Syscall, close, set_nonblocking,
  sigpipe_ignored,
}
use cpp_web_server.Epoller.{EpollEvent, add_fd, mod_fd}
use cpp_web_server.Timer
use cpp_web_server.Timer.{Timer, sigalrm, sigterm}
use cpp_web_server.Workers
use cpp_web_server.Workers.{ThreadPool}
use cpp_web_server.Conn
use cpp_web_server.Conn.{HttpConn, new_conn}
use cpp_web_server.Conn.Transfer.{Arrival, SendStop, Written, read, write}

pub record WebServer : Type 0 where
  pub listen_fd_ : Option ℕ
  pub is_running_ : Bool
  pub thread_pool_ : ThreadPool ℕ
  pub timer_ : Timer
  pub users_ : ℕ → HttpConn
  pub m_user_count : ℤ

-- MAX_FD
abbrev pub max_fd : ℕ
max_fd = 65536

abbrev pub Handled : Type 0
Handled = WebServer × List Syscall

-- The constructor, which also ignores SIGPIPE.
unfoldable pub new_server : ℕ → Handled
new_server thread_num = (
  record {
    listen_fd_ = none;
    is_running_ = false;
    thread_pool_ = Workers.start thread_num;
    timer_ = Timer.new_timer;
    users_ = λ _. new_conn;
    m_user_count = pos 0;
  },
  sigpipe_ignored ∷ [],
)

abbrev pub set_user : (ℕ → HttpConn) → ℕ → HttpConn → ℕ → HttpConn
set_user users fd c j = if fd == j then c else users j

-- What `socket`, `bind`, `listen` and `socketpair` answer.
pub record Sockets : Type 0 where
  pub socket_fd : Option ℕ
  pub bind_ok : Bool
  pub listen_ok : Bool
  pub pair : Option (ℕ × ℕ)

abbrev pub listening : ℕ → ℕ → Option (ℕ × ℕ) → WebServer → Bool × WebServer × List Syscall
listening fd epoll_fd pair s =
    let (_, timer, calls) = Timer.init epoll_fd pair s.timer_ in
    (true, record s { timer_ = timer }, set_nonblocking (some fd) ∷ add_fd fd listen_events ∷ calls)

abbrev pub open_socket : Option ℕ → ℕ → Sockets → WebServer → Bool × WebServer × List Syscall
open_socket none epoll_fd k s = (false, record s { listen_fd_ = none }, [])
open_socket (some fd) epoll_fd k s =
    let opened = record s { listen_fd_ = some fd } in
    if k.bind_ok && k.listen_ok
    then listening fd epoll_fd k.pair opened
    else (false, opened, set_nonblocking (some fd) ∷ close fd ∷ [])

unfoldable pub init_socket_ : ℕ → Sockets → WebServer → Bool × WebServer × List Syscall
init_socket_ epoll_fd k s = open_socket k.socket_fd epoll_fd k s

unfoldable pub stop : WebServer → WebServer
stop s = record s { is_running_ = false }

unfoldable pub add_client_ : ℕ → ℕ → SockAddr → WebServer → Handled
add_client_ now fd addr s =
    let (c, count, calls) = Conn.init fd addr (s.users_ fd) s.m_user_count in
    if leb max_fd fd then (s, close fd ∷ []) else (
      record s {
        users_ = set_user s.users_ fd c;
        m_user_count = count;
        timer_ = Timer.add_timer now fd addr s.timer_;
      },
      calls,
    )

-- The loop over `accept`: the descriptors that it gives until it fails.
unfoldable pub handle_listen_ : ℕ → List (ℕ × SockAddr) → WebServer → Handled
handle_listen_ now [] s = (s, [])
handle_listen_ now ((fd, addr) ∷ accepted) s =
    let (s', calls) = add_client_ now fd addr s in
    let (s'', more) = handle_listen_ now accepted s' in (s'', calls ++ more)

unfoldable pub handle_close_ : ℕ → WebServer → Handled
handle_close_ fd s =
    let (c, count, calls) = Conn.close_conn true (s.users_ fd) s.m_user_count in
    (
      record s {
        timer_ = Timer.del_timer fd s.timer_;
        users_ = set_user s.users_ fd c;
        m_user_count = count;
      },
      calls,
    )

abbrev pub submitted : Option (ThreadPool ℕ) → WebServer → WebServer
submitted none s = s
submitted (some pool) s = record s { thread_pool_ = pool }

unfoldable pub handle_read_ : ℕ → Arrival → ℕ → WebServer → Handled
handle_read_ now arrival fd s =
    let (ok, c) = read arrival (s.users_ fd) in
    let s' = record s { users_ = set_user s.users_ fd c } in
    let refreshed = record s' { timer_ = Timer.adjust_timer now fd s'.timer_ } in
    if ok
    then (submitted (Workers.submit fd refreshed.thread_pool_) refreshed, [])
    else handle_close_ fd s'

-- After a `write`, by its result.
abbrev pub after_write : ℕ → ℕ → Written → WebServer → Handled
after_write now fd w s =
    let refreshed = record s { timer_ = Timer.adjust_timer now fd s.timer_ } in
    if w.done
    then if w.conn.m_keep_alive
      then (
        record refreshed { users_ = set_user s.users_ fd (Conn.reset w.conn) },
        w.calls ++ mod_fd fd read_events ∷ [],
      )
      else (let (s', calls) = handle_close_ fd refreshed in (s', w.calls ++ calls))
    else (s, w.calls ++ mod_fd fd write_events ∷ [])

unfoldable pub handle_write_ : ℕ → List ℕ → SendStop → ℕ → WebServer → Handled
handle_write_ now counts send_stop fd s =
    let w = write counts send_stop (s.users_ fd) in
    after_write now fd w (record s { users_ = set_user s.users_ fd w.conn })

-- The signals read from the pipe: SIGALRM is passed over, SIGTERM stops the loop.
unfoldable pub consume_signals : List ℕ → WebServer → WebServer
unfolding stop
consume_signals [] s = s
consume_signals (sig ∷ sigs) s =
    consume_signals sigs (if sig == sigalrm then s else if sig == sigterm then stop s else s)

unfoldable pub close_all : List ℕ → WebServer → Handled
close_all [] s = (s, [])
close_all (fd ∷ fds) s =
    let (s', calls) = handle_close_ fd s in
    let (s'', more) = close_all fds s' in (s'', calls ++ more)

unfoldable pub handle_timer_ : ℕ → List ℕ → WebServer → Handled
handle_timer_ now sigs s =
    let s' = consume_signals sigs s in
    let (expired, timer, calls) = Timer.tick now s'.timer_ in
    let (s'', more) = close_all expired (record s' { timer_ = timer }) in (s'', calls ++ more)

-- One event, with what the kernel and the clock answer while it is handled.
pub record Input : Type 0 where
  pub event : EpollEvent
  pub open event use *
  pub now : ℕ
  pub accepted : List (ℕ × SockAddr)
  pub arrival : Arrival
  pub counts : List ℕ
  pub send_stop : SendStop
  pub signals : List ℕ

abbrev pub is_fd : Option ℕ → ℕ → Bool
is_fd none fd = false
is_fd (some k) fd = k == fd

-- The body of the loop over the ready events.
unfoldable pub dispatch : Input → WebServer → Handled
dispatch i s =
    if is_fd s.listen_fd_ i.fd
    then handle_listen_ i.now i.accepted s
    else if is_fd s.timer_.pipefd_0 i.fd && i.events.epollin
    then handle_timer_ i.now i.signals s
    else if i.events.epollrdhup || i.events.epollhup || i.events.epollerr
    then handle_close_ i.fd s
    else if i.events.epollin
    then handle_read_ i.now i.arrival i.fd s
    else if i.events.epollout
    then handle_write_ i.now i.counts i.send_stop i.fd s
    else (s, [])
