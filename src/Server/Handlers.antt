-- ===== src/Server/Handlers.antt =====
-- WebServer_Proj/WebServer: what the handlers of reads and writes do, on every branch.
use cpp_web_server.Base.{
  ℕ, ◌+◌, ◌*◌, ◌≡◌, refl, ap, ◌∙◌, Bool, true, false, Option, none, some, List, [], ◌∷◌, ◌++◌, ◌==◌,
  if◌then◌else◌, arith,
}
use cpp_web_server.Kernel.{Syscall, read_events, write_events}
use cpp_web_server.Epoller.{mod_fd}
use cpp_web_server.Timer
use cpp_web_server.Timer.{Timer, timeslot, adjust_timer, del_timer}
use cpp_web_server.Timer.Deadlines.{
  deadline, deadline-del_node, deadline-adjust_list, adjust_list-IsUnique,
}
use cpp_web_server.Workers
use cpp_web_server.Workers.{ThreadPool}
use cpp_web_server.Conn.{HttpConn, reset}
use cpp_web_server.Conn.Descriptor.{closed-none}
use cpp_web_server.Conn.Transfer.{Arrival, SendStop, Written, read, write}
use cpp_web_server.Server.{
  WebServer, set_user, handle_close_, handle_read_, handle_write_, after_write, submitted,
}
use cpp_web_server.Server.Invariant.{Inv}

-- The connection of `fd` is closed, without a timer.
pub record IsClosed (fd : ℕ) (t : WebServer) : Type 0 where
  pub no_fd : (t.users_ fd).m_sockfd ≡ none
  pub no_timer : deadline fd t.timer_.list_ ≡ none

-- A deadline that is refreshed, if there is one.
abbrev pub renewed : ℕ → Option ℕ → Option ℕ
renewed now none = none
renewed now (some d) = some (now + 3 * timeslot)

-- What becomes of a server whose socket `fd` was read, by the result of `read`.
abbrev pub WasRead : Bool → ℕ → ℕ → HttpConn → WebServer → WebServer → Type 0
WasRead true now fd c s t =
    (t.users_ fd ≡ c)
    × (t.thread_pool_.tasks_ ≡ s.thread_pool_.tasks_ ++ fd ∷ [])
    × (deadline fd t.timer_.list_ ≡ renewed now (deadline fd s.timer_.list_))
WasRead false now fd c s t = IsClosed fd t × (t.thread_pool_.tasks_ ≡ s.thread_pool_.tasks_)

eq_self : (fd : ℕ) → (fd == fd) ≡ true
eq_self fd = ground arith

set_user-here : (users : ℕ → HttpConn) (fd : ℕ) (c : HttpConn) → set_user users fd c fd ≡ c
set_user-here users fd c = ap (λ b. if b then c else users fd) (eq_self fd)

pub handle_close_-IsClosed :
    (fd : ℕ) (s : WebServer)
    → deadline fd (Timer.del_node fd s.timer_.list_) ≡ none
    → IsClosed fd (handle_close_ fd s).0
unfolding handle_close_ del_timer
handle_close_-IsClosed fd s e = record {
  no_fd =
      ap (λ c. c.m_sockfd) (set_user-here s.users_ fd _) ∙ closed-none (s.users_ fd) s.m_user_count;
  no_timer = e;
}

handle_close_-pool : (fd : ℕ) (s : WebServer) → (handle_close_ fd s).0.thread_pool_ ≡ s.thread_pool_
unfolding handle_close_
handle_close_-pool fd s = refl

deleted : (fd : ℕ) (s : WebServer) → Inv s → deadline fd (Timer.del_node fd s.timer_.list_) ≡ none
deleted fd s v = deadline-del_node fd fd s.timer_.list_ v.valid.unique ∙ ground arith

adjusted :
    (now fd : ℕ) (s : WebServer)
    → Inv s
    → deadline fd (Timer.adjust_list now fd s.timer_.list_)
      ≡ renewed now (deadline fd s.timer_.list_)
adjusted now fd s v = deadline-adjust_list now fd fd s.timer_.list_ v.valid.unique ∙ ground arith

-- The server after a successful read, before the task is given to the pool.
abbrev refreshed : ℕ → ℕ → HttpConn → WebServer → WebServer
refreshed now fd c s = record s {
  users_ = set_user s.users_ fd c;
  timer_ = Timer.adjust_timer now fd s.timer_;
}

live_submit :
    (fd : ℕ) (p : ThreadPool ℕ)
    → p.stop_ ≡ false
    → Workers.submit fd p
      ≡ some (record p { tasks_ = p.tasks_ ++ fd ∷ []; pending_tasks_ = p.pending_tasks_ + 1 })
unfolding Workers.submit
live_submit fd p e = ground arith

-- On a server with right books and a pool that is not stopped: a successful `read` keeps what was
-- read, refreshes the timer of `fd`, if it has one, and puts one task for `fd` at the end of the
-- queue; any other result closes the connection and its timer, and gives the pool no task.
pub handle_read_-WasRead :
    (now : ℕ) (a : Arrival) (fd : ℕ) (s : WebServer)
    → Inv s
    → s.thread_pool_.stop_ ≡ false
    → WasRead (read a (s.users_ fd)).0 now fd (read a (s.users_ fd)).1 s (handle_read_ now a fd s).0
unfolding handle_read_
handle_read_-WasRead now a fd s v live = go (read a (s.users_ fd)).0
  where
    c : HttpConn
    c = (read a (s.users_ fd)).1

    s' : WebServer
    s' = record s { users_ = set_user s.users_ fd c }

    go :
        (ok : Bool)
        → WasRead ok now fd c s
            (if ok
              then (submitted (Workers.submit fd s.thread_pool_) (refreshed now fd c s), [])
              else handle_close_ fd s').0
    go true =
        rw (live_submit fd s.thread_pool_ live)
          (set_user-here s.users_ fd c, refl, unfold adjust_timer in adjusted now fd s v)
    go false = (
      handle_close_-IsClosed fd s' (deleted fd s v),
      ap (λ p. p.tasks_) (handle_close_-pool fd s'),
    )

-- What becomes of a server that wrote to `fd`, by whether all is sent and the connection is kept,
-- with the calls made after those of `write`.
abbrev pub WasWritten :
    Bool → Bool → ℕ → ℕ → Written → WebServer → WebServer × List Syscall → Type 0
WasWritten true true now fd w s t =
    (t.0.users_ fd ≡ reset w.conn)
    × (deadline fd t.0.timer_.list_ ≡ renewed now (deadline fd s.timer_.list_))
    × (t.1 ≡ w.calls ++ mod_fd fd read_events ∷ [])
WasWritten true false now fd w s t = IsClosed fd t.0
WasWritten false keep now fd w s t =
    (t.0.users_ fd ≡ w.conn)
    × (deadline fd t.0.timer_.list_ ≡ deadline fd s.timer_.list_)
    × (t.1 ≡ w.calls ++ mod_fd fd write_events ∷ [])

after_write-WasWritten :
    (now fd : ℕ) (w : Written) (s : WebServer)
    → Inv s
    → WasWritten w.done w.conn.m_keep_alive now fd w s
        (after_write now fd w (record s { users_ = set_user s.users_ fd w.conn }))
unfolding adjust_timer
after_write-WasWritten now fd w s v = go w.done w.conn.m_keep_alive
  where
    s' : WebServer
    s' = record s { users_ = set_user s.users_ fd w.conn }

    r : WebServer
    r = record s' { timer_ = adjust_timer now fd s.timer_ }

    closed : IsClosed fd (handle_close_ fd r).0
    closed = handle_close_-IsClosed fd r (
        deadline-del_node fd fd _ (adjust_list-IsUnique now fd s.timer_.list_ v.valid.unique)
        ∙ ground arith)

    go :
        (done keep : Bool)
        → WasWritten done keep now fd w s (
            if done
            then if keep
              then (
                record r { users_ = set_user s'.users_ fd (reset w.conn) },
                w.calls ++ mod_fd fd read_events ∷ [],
              )
              else ((handle_close_ fd r).0, w.calls ++ (handle_close_ fd r).1)
            else (s', w.calls ++ mod_fd fd write_events ∷ []))
    go true true = (set_user-here s'.users_ fd (reset w.conn), adjusted now fd s v, refl)
    go true false = closed
    go false keep = (set_user-here s.users_ fd w.conn, refl, refl)

-- On a server with right books, by the result of `write`: a connection that has sent all and is kept
-- is reset, has its timer refreshed, if there is one, and is registered for reading; one that has
-- sent all and is not kept is closed with its timer; and one that has not sent all stays as `write`
-- left it, with its timer, and is registered for writing.
pub handle_write_-WasWritten :
    (now : ℕ) (counts : List ℕ) (stop : SendStop) (fd : ℕ) (s : WebServer)
    → Inv s
    → let w : Written = write counts stop (s.users_ fd) in
      WasWritten w.done w.conn.m_keep_alive now fd w s (handle_write_ now counts stop fd s)
unfolding handle_write_
handle_write_-WasWritten now counts stop fd s v =
    after_write-WasWritten now fd (write counts stop (s.users_ fd)) s v
