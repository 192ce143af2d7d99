-- ===== src/Server/Loop.antt =====
-- WebServer_Proj/WebServer and WebServer_Proj/main.cpp: the event loop from start to end. What each
-- `epoll_wait` gives is an argument, with the answers to what is done about it and the turns that the
-- workers take.
pub mod Fresh
pub mod Off
pub mod Made
pub mod Sigterm
pub mod Ends
use cpp_web_server.Base.{
  ℕ, zero, suc, Bool, true, false, Option, none, some, List, [], ◌∷◌, ◌++◌, if◌then◌else◌,
  get_elem?,
}
use cpp_web_server.Kernel.{Syscall, close}
use cpp_web_server.Timer
use cpp_web_server.Workers
use cpp_web_server.Workers.{ThreadPool, Phase, running, worker_step}
use cpp_web_server.MySql.{MySqlPool}
use cpp_web_server.Conn
use cpp_web_server.Conn.Reply.{Host}
use cpp_web_server.Conn.Process.{process}
use cpp_web_server.Server.{
  WebServer, max_fd, Handled, new_server, set_user, Sockets, init_socket_, stop, Input, dispatch,
}

-- What goes on in the server between two calls of `epoll_wait`, or while it waits: the main thread
-- handles an event; a worker moves in its loop; a worker runs the task that it has taken.
pub data Turn : Type 0 where
  event_turn : Input → Turn
  worker_turn : ℕ → Turn
  task_turn : ℕ → Host → List ℕ → MySqlPool → Turn

abbrev pub scheduled : Option (ThreadPool ℕ) → WebServer → WebServer
scheduled none s = s
scheduled (some p) s = record s { thread_pool_ = p }

-- The task of a worker that has one.
abbrev pub worked : Option (Phase ℕ) → Host → List ℕ → MySqlPool → WebServer → Handled
worked (some (running fd)) host arrivals pool s =
    let (c, _, calls) = process host arrivals (s.users_ fd) pool in
    (record s { users_ = set_user s.users_ fd c }, calls)
worked _ host arrivals pool s = (s, [])

abbrev pub turn : Turn → WebServer → Handled
turn (event_turn i) s = dispatch i s
turn (worker_turn worker) s = (scheduled (worker_step worker s.thread_pool_) s, [])
turn (task_turn worker host arrivals pool) s =
    worked (get_elem? s.thread_pool_.workers_ worker) host arrivals pool s

-- The loop over the ready events, with the workers beside it.
unfoldable pub turns : List Turn → WebServer → Handled
turns [] s = (s, [])
turns (t ∷ ts) s =
    let (s', calls) = turn t s in let (s'', more) = turns ts s' in (s'', calls ++ more)

-- What `epoll_wait` gives: ready events, among the workers' turns; EINTR; or another error.
pub data Round : Type 0 where
  wakes : List Turn → Round
  interrupts fails : Round

-- The loop, for as many rounds as are given.
unfoldable pub run_loop : List Round → WebServer → Handled
run_loop [] s = (s, [])
run_loop (wakes ts ∷ rounds) s =
    let (s', calls) = turns ts s in
    let (s'', more) = run_loop rounds s' in if s.is_running_ then (s'', calls ++ more) else (s, [])
run_loop (interrupts ∷ rounds) s =
    let rest = run_loop rounds s in if s.is_running_ then rest else (s, [])
run_loop (fails ∷ rounds) s = (s, [])

unfoldable pub start : ℕ → Sockets → List Round → WebServer → Handled
start epoll_fd k rounds s =
    let (ok, opened, calls) = init_socket_ epoll_fd k s in
    let (s', more) = run_loop rounds (record opened { is_running_ = true }) in
    if ok then (s', calls ++ more) else (opened, calls)

-- `delete[] users_`: the destructors of the connections below `n`, from the last to the first.
unfoldable pub delete_users : ℕ → WebServer → Handled
delete_users zero s = (s, [])
delete_users (suc fd) s =
    let (c, count, calls) = Conn.close_conn true (s.users_ fd) s.m_user_count in
    let (s', more) =
      delete_users fd (record s { users_ = set_user s.users_ fd c; m_user_count = count }) in
    (s', calls ++ more)

abbrev close_listen : Option ℕ → List Syscall
close_listen none = []
close_listen (some fd) = close fd ∷ []

-- The destructor, and those of the members as far as their first steps: the timer closes its pipe,
-- and the pool is told to stop. Only then does the pool wait for its tasks.
unfoldable pub destroy : WebServer → Handled
destroy s =
    let (s', calls) = delete_users max_fd (stop s) in
    let (timer, more) = Timer.destroy s'.timer_ in
    (
      record s' { timer_ = timer; thread_pool_ = Workers.request_stop s'.thread_pool_ },
      close_listen s.listen_fd_ ++ (calls ++ more),
    )

-- The body of `main` behind the logger and the database pool, with 8 workers; `none` is its -1.
unfoldable pub main : Bool → ℕ → Sockets → List Round → Option Handled
main logger_ok epoll_fd k rounds =
    if logger_ok
    then (let (s, calls) = start epoll_fd k rounds (new_server 8).0 in
        let (s', more) = destroy s in some (s', calls ++ more))
    else none
