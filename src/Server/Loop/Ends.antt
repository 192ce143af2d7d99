-- ===== src/Server/Loop/Ends.antt =====
-- WebServer_Proj/WebServer: the destructor leaves no connection open.
use cpp_web_server.Base.{
  ℕ, zero, suc, ◌<◌, ◌≡◌, refl, ap, ◌∙◌, Bool, true, false, ◌==◌, none, ◌⊎◌, Bool-cases,
  Option-cases, inl, inr, if◌then◌else◌, arith,
}
use cpp_web_server.Workers
use cpp_web_server.Workers.{ThreadPool, Phase, waiting, running, finishing, exited, worker_step}
use cpp_web_server.Timer.Registry.{listed}
use cpp_web_server.Timer.Deadlines.{deadline}
use cpp_web_server.Conn
use cpp_web_server.Conn.{HttpConn}
use cpp_web_server.Conn.Descriptor.{closed-none}
use cpp_web_server.Server.{WebServer, max_fd, set_user, stop}
use cpp_web_server.Server.Book.{opened}
use cpp_web_server.Server.Invariant.{Inv, Reach, Reach-Inv}
use cpp_web_server.Server.Loop.{delete_users, destroy}

-- The server after the destructor of the connection of `fd`.
abbrev without : ℕ → WebServer → WebServer
without fd s =
    let (c, count, _) = Conn.close_conn true (s.users_ fd) s.m_user_count in
    record s { users_ = set_user s.users_ fd c; m_user_count = count }

without-none :
    (n fd : ℕ) (s : WebServer)
    → ((n == fd) ≡ true) ⊎ ((s.users_ fd).m_sockfd ≡ none)
    → ((without n s).users_ fd).m_sockfd ≡ none
without-none n fd s h = go (n == fd) refl h
  where
    closed : HttpConn
    closed = (Conn.close_conn true (s.users_ n) s.m_user_count).0

    go :
        (b : Bool)
        → (n == fd) ≡ b
        → ((n == fd) ≡ true) ⊎ ((s.users_ fd).m_sockfd ≡ none)
        → (if b then closed else s.users_ fd).m_sockfd ≡ none
    go true e h = closed-none (s.users_ n) s.m_user_count
    go false e (inl h) = cc
    go false e (inr h) = h

-- Of the connections below `n`, whatever they were, none has a descriptor left; and one that had none
-- still has none.
delete_users-closed :
    (n : ℕ) (s : WebServer) (fd : ℕ)
    → (fd < n) ⊎ ((s.users_ fd).m_sockfd ≡ none)
    → ((delete_users n s).0.users_ fd).m_sockfd ≡ none
unfolding delete_users
delete_users-closed zero s fd (inl h) = elim h [ ]
delete_users-closed zero s fd (inr e) = e
delete_users-closed (suc n) s fd h =
    delete_users-closed n (without n s) fd (elim (Bool-cases (n == fd)) [
      | inl same ↦ inr (without-none n fd s (inl same))
      | inr other ↦ below h other
    ])
  where
    below :
        (fd < suc n) ⊎ ((s.users_ fd).m_sockfd ≡ none)
        → (n == fd) ≡ false
        → (fd < n) ⊎ (((without n s).users_ fd).m_sockfd ≡ none)
    below (inl h) other = inl (ground arith)
    below (inr e) other = inr (without-none n fd s (inr e))

opened-below : (s : WebServer) (fd : ℕ) → Inv s → (fd < max_fd) ⊎ ((s.users_ fd).m_sockfd ≡ none)
unfolding listed
opened-below s fd v = elim (Option-cases (deadline fd s.timer_.list_)) [
  | inl e ↦ inr ((v.agree fd).fd_is ∙ ap (opened fd) e)
  | inr (d, e) ↦ inl (v.in_range fd (λ n. absurd (ground arith)))
]

-- The destructor of a server that any events, worker steps and tasks have led to leaves no
-- connection with a descriptor, and stops the thread pool.
pub destroy-closed :
    {n : ℕ} {s : WebServer} (fd : ℕ)
    → Reach n s
    → (((destroy s).0.users_ fd).m_sockfd ≡ none) × ((destroy s).0.thread_pool_.stop_ ≡ true)
unfolding destroy Workers.request_stop stop
destroy-closed {n} {s} fd r =
    (delete_users-closed max_fd (stop s) fd (opened-below s fd (Reach-Inv r)), refl)
