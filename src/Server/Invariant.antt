-- ===== src/Server/Invariant.antt =====
-- WebServer_Proj/WebServer: every event and every task keeps the server's books, in any interleaving.
use cpp_web_server.Base.{
  ℕ, ◌≡◌, refl, subst, Bool, true, false, ◌&&◌, ◌||◌, ◌==◌, Option, none, some, List, [], ◌∷◌, leb,
  get_elem?, Bool-cases, inl, inr, if◌then◌else◌, arith,
}
use cpp_web_server.Kernel.{SockAddr}
use cpp_web_server.MySql.{MySqlPool}
use cpp_web_server.Timer
use cpp_web_server.Timer.{Timer, sigalrm, sigterm}
use cpp_web_server.Timer.Registry.{listed}
use cpp_web_server.Timer.Deadlines.{deadline}
use cpp_web_server.Workers.{ThreadPool, running, worker_step}
use cpp_web_server.Conn.{init, reset}
use cpp_web_server.Conn.Descriptor.{IsAt, reset-IsAt, read-IsAt, write-IsAt, process-IsAt}
use cpp_web_server.Conn.Transfer.{Arrival, SendStop, Written, read, write}
use cpp_web_server.Conn.Reply.{Host}
use cpp_web_server.Conn.Process.{process}
use cpp_web_server.Server.{
  WebServer, max_fd, set_user, new_server, stop, add_client_, handle_listen_, handle_close_,
  submitted, handle_read_, after_write, handle_write_, consume_signals, close_all, handle_timer_,
  Input, is_fd, dispatch, Handled, Sockets, init_socket_, open_socket,
}
use cpp_web_server.Server.Expiry.{Book-close_expired, Book-tick, Book-list}
use cpp_web_server.Server.Book.{Book, holder, Book-update, Book-adjust, Book-close, Book-open}

-- The books are right, with `ps` on their way out.
abbrev pub Books : List ℕ → WebServer → Type 0
Books ps s = Book ps s.timer_ s.users_ s.m_user_count

abbrev pub Inv : WebServer → Type 0
Inv = Books []

-- The kernel accepts no connection on a descriptor that is open.
abbrev pub AcceptsFresh : ℕ → List (ℕ × SockAddr) → WebServer → Type 0
AcceptsFresh now [] s = Unit {0}
AcceptsFresh now ((fd, addr) ∷ accepted) s =
    ((s.users_ fd).m_sockfd ≡ none) × AcceptsFresh now accepted (add_client_ now fd addr s).0

add_client_-Inv :
    (now fd : ℕ) (addr : SockAddr) (s : WebServer)
    → (s.users_ fd).m_sockfd ≡ none
    → Inv s
    → Inv (add_client_ now fd addr s).0
unfolding add_client_ init
add_client_-Inv now fd addr s free v = elim (Bool-cases (leb max_fd fd)) [
  | inl big ↦ rw big v
  | inr small ↦ rw small (Book-open now fd addr v free (ground arith))
]

handle_listen_-Inv :
    (now : ℕ) (accepted : List (ℕ × SockAddr)) (s : WebServer)
    → AcceptsFresh now accepted s
    → Inv s
    → Inv (handle_listen_ now accepted s).0
unfolding handle_listen_
handle_listen_-Inv now [] s f v = v
handle_listen_-Inv now ((fd, addr) ∷ accepted) s f v =
    handle_listen_-Inv now accepted (add_client_ now fd addr s).0 f.1
      (add_client_-Inv now fd addr s f.0 v)

handle_close_-Inv : (fd : ℕ) (s : WebServer) → Inv s → Inv (handle_close_ fd s).0
unfolding handle_close_
handle_close_-Inv fd s v = Book-close fd v

submitted-Inv : (p : Option (ThreadPool ℕ)) (s : WebServer) → Inv s → Inv (submitted p s)
submitted-Inv none s v = v
submitted-Inv (some p) s v = v

handle_read_-Inv :
    (now : ℕ) (a : Arrival) (fd : ℕ) (s : WebServer) → Inv s → Inv (handle_read_ now a fd s).0
unfolding handle_read_
handle_read_-Inv now a fd s v = elim (Bool-cases (read a (s.users_ fd)).0) [
  | inl ok ↦ rw ok (submitted-Inv _ _ (Book-adjust now fd received))
  | inr gone ↦ rw gone (handle_close_-Inv fd _ received)
]
  where
    received : Book [] s.timer_ (set_user s.users_ fd (read a (s.users_ fd)).1) s.m_user_count
    received = Book-update fd _ v (read-IsAt a (s.users_ fd) (v.agree fd))

pub pick-Inv : (b : Bool) (p q : Handled) → Inv p.0 → Inv q.0 → Inv (if b then p else q).0
pick-Inv true p q i j = i
pick-Inv false p q i j = j

after_write-Inv :
    (now fd : ℕ) (w : Written) (s : WebServer)
    → Inv s
    → s.users_ fd ≡ w.conn
    → Inv (after_write now fd w s).0
after_write-Inv now fd w s v e =
    pick-Inv w.done _ _
      (pick-Inv w.conn.m_keep_alive _ _
        (Book-update fd (reset w.conn) refreshed (
          reset-IsAt w.conn (
            subst (IsAt (holder [] (Timer.adjust_timer now fd s.timer_).list_ fd)) e
              (refreshed.agree fd))))
        (handle_close_-Inv fd (record s { timer_ = Timer.adjust_timer now fd s.timer_ }) refreshed))
      v
  where
    refreshed : Book [] (Timer.adjust_timer now fd s.timer_) s.users_ s.m_user_count
    refreshed = Book-adjust now fd v

handle_write_-Inv :
    (now : ℕ) (counts : List ℕ) (e : SendStop) (fd : ℕ) (s : WebServer)
    → Inv s
    → Inv (handle_write_ now counts e fd s).0
unfolding handle_write_
handle_write_-Inv now counts e fd s v =
    after_write-Inv now fd (write counts e (s.users_ fd)) _
      (Book-update fd _ v (write-IsAt counts e (s.users_ fd) (v.agree fd))) (ground arith)

close_all-Inv : (fds : List ℕ) (s : WebServer) → Books fds s → Inv (close_all fds s).0
unfolding close_all
close_all-Inv [] s v = v
close_all-Inv (fd ∷ fds) s v =
    close_all-Inv fds (handle_close_ fd s).0 (unfold handle_close_ in Book-close_expired fd fds v)

signal-Inv : (a b : Bool) (s : WebServer) → Inv s → Inv (if a then s else if b then stop s else s)
unfolding stop
signal-Inv true b s v = v
signal-Inv false true s v = v
signal-Inv false false s v = v

consume_signals-Inv : (sigs : List ℕ) (s : WebServer) → Inv s → Inv (consume_signals sigs s)
unfolding consume_signals
consume_signals-Inv [] s v = v
consume_signals-Inv (sig ∷ sigs) s v =
    consume_signals-Inv sigs _ (signal-Inv (sig == sigalrm) (sig == sigterm) s v)

handle_timer_-Inv :
    (now : ℕ) (sigs : List ℕ) (s : WebServer) → Inv s → Inv (handle_timer_ now sigs s).0
unfolding handle_timer_
handle_timer_-Inv now sigs s v = close_all-Inv _ _ (Book-tick now (consume_signals-Inv sigs s v))

-- One event keeps the books, whatever it is and whatever the kernel answers, on the condition that
-- no connection is accepted on an open descriptor.
pub dispatch-Inv :
    (i : Input) (s : WebServer) → AcceptsFresh i.now i.accepted s → Inv s → Inv (dispatch i s).0
unfolding dispatch
dispatch-Inv i s f v =
    pick-Inv (is_fd s.listen_fd_ i.fd) _ _ (handle_listen_-Inv i.now i.accepted s f v) (
      pick-Inv (is_fd s.timer_.pipefd_0 i.fd && i.events.epollin) _ _
        (handle_timer_-Inv i.now i.signals s v)
        (pick-Inv (i.events.epollrdhup || i.events.epollhup || i.events.epollerr) _ _
          (handle_close_-Inv i.fd s v)
          (pick-Inv i.events.epollin _ _ (handle_read_-Inv i.now i.arrival i.fd s v) (
            pick-Inv i.events.epollout _ _ (handle_write_-Inv i.now i.counts i.send_stop i.fd s v)
              v))))

-- The steps of the whole server: the main thread handles an event, a worker moves in its loop, and a
-- worker runs its task, each as one step.
pub data Step (s : WebServer) : WebServer → Type 0 where
  handles : (i : Input) → AcceptsFresh i.now i.accepted s → Step s (dispatch i s).0
  schedules :
      (worker : ℕ) {p : ThreadPool ℕ}
      → worker_step worker s.thread_pool_ ≡ some p
      → Step s (record s { thread_pool_ = p })
  works :
      (worker fd : ℕ) (host : Host) (arrivals : List ℕ) (pool : MySqlPool)
      → get_elem? s.thread_pool_.workers_ worker ≡ some (running fd)
      → Step s
          (record s { users_ = set_user s.users_ fd (process host arrivals (s.users_ fd) pool).0 })

-- What a server with `n` workers can come to, whose listening socket is set up or not, and which `start`
-- has set running or not.
pub data Reach (n : ℕ) : WebServer → Type 0 where
  created : Reach n (new_server n).0
  set_up :
      (epoll_fd : ℕ) (k : Sockets) {s : WebServer}
      → Reach n s
      → Reach n (init_socket_ epoll_fd k s).1
  runs : {s : WebServer} → Reach n s → Reach n (record s { is_running_ = true })
  later : {s t : WebServer} → Reach n s → Step s t → Reach n t

Step-Inv : {s t : WebServer} → Step s t → Inv s → Inv t
Step-Inv {s} (handles i f) v = dispatch-Inv i s f v
Step-Inv (schedules worker e) v = v
Step-Inv {s} (works worker fd host arrivals pool e) v =
    Book-update fd _ v (process-IsAt host arrivals (s.users_ fd) pool (v.agree fd))

pub new_server-Inv : (n : ℕ) → Inv (new_server n).0
unfolding new_server listed deadline
new_server-Inv n = record {
  valid = record { sorted = tt; unique = tt };
  agree = λ fd. record { fd_is = refl; within = omega arith };
  apart = λ fd e. refl;
  once = tt;
  in_range = λ fd n. absurd (n refl);
  counted = refl;
}

init-list :
    (epoll_fd : ℕ) (pair : Option (ℕ × ℕ)) (t : Timer)
    → (Timer.init epoll_fd pair t).1.list_ ≡ t.list_
unfolding Timer.init
init-list epoll_fd none t = refl
init-list epoll_fd (some p) t = refl

open_socket-Inv :
    (o : Option ℕ) (epoll_fd : ℕ) (k : Sockets) (s : WebServer)
    → Inv s
    → Inv (open_socket o epoll_fd k s).1
open_socket-Inv none epoll_fd k s v = v
open_socket-Inv (some fd) epoll_fd k s v = elim (Bool-cases (k.bind_ok && k.listen_ok)) [
  | inl ok ↦ rw ok (Book-list (init-list epoll_fd k.pair s.timer_) v)
  | inr failed ↦ rw failed v
]

pub init_socket_-Inv :
    (epoll_fd : ℕ) (k : Sockets) (s : WebServer) → Inv s → Inv (init_socket_ epoll_fd k s).1
unfolding init_socket_
init_socket_-Inv epoll_fd k s v = open_socket-Inv k.socket_fd epoll_fd k s v

-- In every state that the server can come to, by events, worker steps and tasks in any order: the
-- timers are sorted, one to a descriptor; a descriptor has a timer exactly while its connection is
-- open on it, and lies below MAX_FD; each connection's position lies within its buffer; and the
-- user count is the number of timers.
pub Reach-Inv : {n : ℕ} {s : WebServer} → Reach n s → Inv s
Reach-Inv {n} created = new_server-Inv n
Reach-Inv (set_up epoll_fd k {s} r) = init_socket_-Inv epoll_fd k s (Reach-Inv r)
Reach-Inv (runs r) = Reach-Inv r
Reach-Inv (later r st) = Step-Inv st (Reach-Inv r)
