-- ===== src/Server/Loop/Off.antt =====
-- WebServer_Proj/WebServer: SIGTERM stops the server, and no handler and no worker starts it again.
use cpp_web_server.Base.{
  ℕ, ◌≡◌, refl, sym, ap, ◌∙◌, Bool, true, false, not, ◌&&◌, ◌||◌, Option, none, some, List, [], ◌∷◌,
  ◌++◌, append_assoc, leb, get_elem?, if◌then◌else◌, arith,
}
use cpp_web_server.Kernel.{SockAddr}
use cpp_web_server.Workers.{ThreadPool, Phase, waiting, running, finishing, exited, worker_step}
use cpp_web_server.Timer.{sigterm}
use cpp_web_server.Timer.Registry.{listed}
use cpp_web_server.Conn.Transfer.{read, write}
use cpp_web_server.Server.{
  WebServer, max_fd, Handled, stop, Input, dispatch, consume_signals, close_all, add_client_,
  handle_listen_, submitted, handle_read_, handle_write_, handle_close_, handle_timer_, is_fd,
}
use cpp_web_server.Server.Loop.{
  Turn, event_turn, worker_turn, task_turn, scheduled, worked, turn, turns,
}

consume_signals-running :
    (sigs : List ℕ) (s : WebServer)
    → (consume_signals sigs s).is_running_ ≡ (s.is_running_ && not (listed sigterm sigs))
unfolding consume_signals listed stop
consume_signals-running [] s = ground arith
consume_signals-running (sig ∷ sigs) s =
    ground (arith, consume_signals-running sigs s, consume_signals-running sigs (stop s))

handle_close_-running :
    (fd : ℕ) (s : WebServer) → (handle_close_ fd s).0.is_running_ ≡ s.is_running_
unfolding handle_close_
handle_close_-running fd s = refl

close_all-running : (fds : List ℕ) (s : WebServer) → (close_all fds s).0.is_running_ ≡ s.is_running_
unfolding close_all
close_all-running [] s = refl
close_all-running (fd ∷ fds) s =
    close_all-running fds (handle_close_ fd s).0 ∙ handle_close_-running fd s

pub handle_timer_-running :
    (now : ℕ) (sigs : List ℕ) (s : WebServer)
    → (handle_timer_ now sigs s).0.is_running_ ≡ (s.is_running_ && not (listed sigterm sigs))
unfolding handle_timer_
handle_timer_-running now sigs s = close_all-running _ _ ∙ consume_signals-running sigs s

-- No handler and no worker sets the server running again.
abbrev pub IsOff : WebServer → Type 0
IsOff s = s.is_running_ ≡ false

pick-IsOff : (b : Bool) (p q : Handled) → IsOff p.0 → IsOff q.0 → IsOff (if b then p else q).0
pick-IsOff true p q i j = i
pick-IsOff false p q i j = j

handle_listen_-IsOff :
    (now : ℕ) (accepted : List (ℕ × SockAddr)) (s : WebServer)
    → IsOff s
    → IsOff (handle_listen_ now accepted s).0
unfolding handle_listen_ add_client_
handle_listen_-IsOff now [] s off = off
handle_listen_-IsOff now ((fd, addr) ∷ accepted) s off =
    handle_listen_-IsOff now accepted (add_client_ now fd addr s).0
      (pick-IsOff (leb max_fd fd) _ _ off off)

submitted-IsOff : (o : Option (ThreadPool ℕ)) (s : WebServer) → IsOff s → IsOff (submitted o s)
submitted-IsOff none s off = off
submitted-IsOff (some p) s off = off

pub dispatch-IsOff : (i : Input) (s : WebServer) → IsOff s → IsOff (dispatch i s).0
unfolding dispatch handle_close_ handle_read_ handle_write_
dispatch-IsOff i s off =
    pick-IsOff (is_fd s.listen_fd_ i.fd) _ _ (handle_listen_-IsOff i.now i.accepted s off) (
      pick-IsOff (is_fd s.timer_.pipefd_0 i.fd && i.events.epollin) _ _
        (handle_timer_-running i.now i.signals s
          ∙ ap (λ b. b && not (listed sigterm i.signals)) off)
        (pick-IsOff (i.events.epollrdhup || i.events.epollhup || i.events.epollerr) _ _ off (
          pick-IsOff i.events.epollin _ _
            (pick-IsOff (read i.arrival (s.users_ i.fd)).0 _ _ (submitted-IsOff _ _ off) off)
            (pick-IsOff i.events.epollout _ _
              (pick-IsOff (write i.counts i.send_stop (s.users_ i.fd)).done _ _
                (pick-IsOff (write i.counts i.send_stop (s.users_ i.fd)).conn.m_keep_alive _ _ off
                  off)
                off)
              off))))

turn-IsOff : (t : Turn) (s : WebServer) → IsOff s → IsOff (turn t s).0
turn-IsOff (event_turn i) s off = dispatch-IsOff i s off
turn-IsOff (worker_turn worker) s off = go (worker_step worker s.thread_pool_)
  where
    go : (o : Option (ThreadPool ℕ)) → IsOff (scheduled o s)
    go none = off
    go (some p) = off
turn-IsOff (task_turn worker host arrivals pool) s off =
    go (get_elem? s.thread_pool_.workers_ worker)
  where
    go : (o : Option (Phase ℕ)) → IsOff (worked o host arrivals pool s).0
    go none = off
    go (some waiting) = off
    go (some finishing) = off
    go (some exited) = off
    go (some (running fd)) = off

pub turns-IsOff : (ts : List Turn) (s : WebServer) → IsOff s → IsOff (turns ts s).0
unfolding turns
turns-IsOff [] s off = off
turns-IsOff (t ∷ ts) s off = turns-IsOff ts (turn t s).0 (turn-IsOff t s off)

pub turns-append :
    (ts us : List Turn) (s : WebServer)
    → turns (ts ++ us) s
      ≡ ((turns us (turns ts s).0).0, (turns ts s).1 ++ (turns us (turns ts s).0).1)
unfolding turns
turns-append [] us s = refl
turns-append (t ∷ ts) us s =
    ap (λ h. (h.0, (turn t s).1 ++ h.1)) (turns-append ts us (turn t s).0)
    ∙ ap (λ l. ((turns us (turns ts (turn t s).0).0).0, l))
        (sym (
          append_assoc (turn t s).1 (turns ts (turn t s).0).1
            (turns us (turns ts (turn t s).0).0).1))
