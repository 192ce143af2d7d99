-- ===== src/Examples/Servers.antt =====
-- Tests and examples of WebServer_Proj/WebServer.
use cpp_web_server.Base.{arith, ◌≢◌, ℕ, ◌≡◌, refl, true, false, none, some, [], ◌∷◌, List}
use cpp_web_server.Kernel.{read_events}
use cpp_web_server.Timer
use cpp_web_server.Workers
use cpp_web_server.Workers.{worker_step}
use cpp_web_server.MySql.{MySqlPool}
use cpp_web_server.Timer.Registry.{listed}
use cpp_web_server.Timer.Deadlines.{deadline}
use cpp_web_server.Conn.Transfer.{
  recv_would_block, send_would_block, send_error_stop, Written, read, write,
}
use cpp_web_server.Server.{
  WebServer, new_server, Sockets, init_socket_, Input, dispatch, handle_read_, handle_write_,
  handle_timer_, add_client_, handle_listen_, is_fd,
}
use cpp_web_server.Server.Invariant.{
  Inv, AcceptsFresh, handles, Reach, created, set_up, later, Reach-Inv,
}
use cpp_web_server.Conn.{new_conn, nullptr, mapped, in_mapping}
use cpp_web_server.Epoller.{mod_fd}
use cpp_web_server.Kernel.{munmap, write_events}
use cpp_web_server.Server.Handlers.{
  WasRead, handle_read_-WasRead, WasWritten, handle_write_-WasWritten,
}
use cpp_web_server.Server.Failures.{handle_write_-failed}
use cpp_web_server.Server.Timeouts.{AfterTimeout, handle_timer_-AfterTimeout}
use cpp_web_server.Server.Loop.{
  Turn, event_turn, worker_turn, task_turn, turns, Round, wakes, interrupts, run_loop, start,
  destroy,
}
use cpp_web_server.Server.Loop.Fresh.{LoopFresh}
use cpp_web_server.Server.Loop.Made.{Started, start-Started}
use cpp_web_server.Server.Loop.Sigterm.{run_loop-sigterm}
use cpp_web_server.Server.Loop.Ends.{destroy-closed}
use cpp_web_server.Examples.{local, small_host}

abbrev no_pool : MySqlPool
no_pool = record { conn_queue_ = []; current_size_ = 0 }

abbrev sockets : Sockets
sockets = record { socket_fd = some 4; bind_ok = true; listen_ok = true; pair = some (5, 6) }

-- The server with its listening socket on 4 and the pipe on 5.
abbrev listening : WebServer
listening = (init_socket_ 3 sockets (new_server 2).0).1

-- A readable event on `fd`; one client on 7 waits to be accepted, a byte is there to be read, and SIGTERM came.
abbrev readable : ℕ → Input
readable fd = record {
  event = record { fd = fd; events = read_events };
  now = 100;
  accepted = (7, local) ∷ [];
  arrival = record { chunks = (71 ∷ []) ∷ []; stop = recv_would_block };
  counts = [];
  send_stop = send_would_block;
  signals = 14 ∷ 15 ∷ [];
}

listening-Reach : Reach 2 listening
listening-Reach = set_up 3 sockets created

accept_fresh : AcceptsFresh 100 ((7, local) ∷ []) listening
unfolding init_socket_ new_server
accept_fresh = (refl, tt)

-- The server with one client.
abbrev one_client : WebServer
one_client = (dispatch (readable 4) listening).0

one_client-Reach : Reach 2 one_client
one_client-Reach = later listening-Reach (handles (readable 4) accept_fresh)

Reach-Inv_example : Inv one_client
Reach-Inv_example = Reach-Inv one_client-Reach

one_client_live : one_client.thread_pool_.stop_ ≡ false
unfolding dispatch handle_listen_ add_client_ init_socket_ new_server Workers.start
one_client_live = refl

handle_read_-WasRead_example :
    WasRead
      (read (readable 7).arrival (one_client.users_ 7)).0
      101
      7
      (read (readable 7).arrival (one_client.users_ 7)).1
      one_client
      (handle_read_ 101 (readable 7).arrival 7 one_client).0
handle_read_-WasRead_example =
    handle_read_-WasRead 101 (readable 7).arrival 7 one_client (Reach-Inv one_client-Reach)
      one_client_live

handle_write_-WasWritten_example :
    let w : Written = write [] send_would_block (one_client.users_ 7) in
    WasWritten w.done w.conn.m_keep_alive 101 7 w one_client
      (handle_write_ 101 [] send_would_block 7 one_client)
handle_write_-WasWritten_example =
    handle_write_-WasWritten 101 [] send_would_block 7 one_client (Reach-Inv one_client-Reach)

abbrev running_server : WebServer
running_server = record listening { is_running_ = true }

not_listen : is_fd (turns (worker_turn 0 ∷ []) running_server).0.listen_fd_ 5 ≡ false
unfolding init_socket_ turns new_server worker_step Workers.start Workers.wake
not_listen = refl

is_pipe : is_fd (turns (worker_turn 0 ∷ []) running_server).0.timer_.pipefd_0 5 ≡ true
unfolding init_socket_ Timer.init turns new_server worker_step Workers.start Workers.wake
is_pipe = refl

sigterm_came : listed 15 (14 ∷ 15 ∷ []) ≡ true
unfolding listed
sigterm_came = refl

-- The timeout comes between a worker's look at the queue and another event.
abbrev last_batch : List Turn
last_batch = worker_turn 0 ∷ event_turn (readable 5) ∷ event_turn (readable 4) ∷ []

run_loop-sigterm_example :
    (run_loop (wakes last_batch ∷ wakes (event_turn (readable 4) ∷ []) ∷ []) running_server
      ≡ turns last_batch running_server)
    × ((turns last_batch running_server).0.is_running_ ≡ false)
run_loop-sigterm_example =
    run_loop-sigterm (worker_turn 0 ∷ []) (readable 5) (event_turn (readable 4) ∷ [])
      (wakes (event_turn (readable 4) ∷ []) ∷ []) running_server refl not_listen is_pipe refl
      sigterm_came

-- A client is accepted, its byte is read, and a worker takes its task.
abbrev some_rounds : List Round
some_rounds =
    interrupts
    ∷ wakes (event_turn (readable 4) ∷ [])
    ∷ wakes (
        event_turn (record (readable 7) { accepted = [] })
        ∷ worker_turn 0
        ∷ task_turn 0 small_host [] no_pool
        ∷ [])
    ∷ []

loop_fresh : LoopFresh some_rounds running_server
unfolding init_socket_ new_server turns
loop_fresh = ((accept_fresh, tt), ((tt, (tt, (tt, tt))), tt))

start-Started_example :
    Started true some_rounds
      ((init_socket_ 3 sockets (new_server 2).0).1, (init_socket_ 3 sockets (new_server 2).0).2)
      (start 3 sockets some_rounds (new_server 2).0)
    × Reach 2 (start 3 sockets some_rounds (new_server 2).0).0
unfolding init_socket_
start-Started_example = start-Started 2 3 sockets some_rounds loop_fresh

destroy-closed_example :
    (((destroy one_client).0.users_ 7).m_sockfd ≡ none)
    × ((destroy one_client).0.thread_pool_.stop_ ≡ true)
destroy-closed_example = destroy-closed 7 one_client-Reach

handle_timer_-AfterTimeout_example :
    AfterTimeout 200
      (deadline 7 one_client.timer_.list_)
      7
      one_client
      (handle_timer_ 200 (14 ∷ []) one_client).0
handle_timer_-AfterTimeout_example =
    handle_timer_-AfterTimeout 200 (14 ∷ []) 7 one_client (Reach-Inv one_client-Reach)

-- A file of two bytes waits to be sent on 7.
abbrev sending_server : WebServer
sending_server = record one_client {
  users_ = λ fd. record new_conn {
    m_sockfd = some fd;
    m_mmap_addr = mapped (104 ∷ 105 ∷ []);
    m_file_stat_size = 2;
    m_iv_0 = record { iov_base = in_mapping 0; iov_len = 2 };
    m_iv_count = 1;
    m_bytes_to_send = 2;
  };
}

some_left : (sending_server.users_ 7).m_bytes_to_send ≢ 0
some_left = omega arith

handle_write_-failed_example :
    ((handle_write_ 101 [] send_error_stop 7 sending_server).1
      ≡ munmap 2 ∷ mod_fd 7 write_events ∷ [])
    × ((handle_write_ 101 [] send_error_stop 7 sending_server).0.users_ 7
        ≡ record (sending_server.users_ 7) { m_mmap_addr = nullptr })
handle_write_-failed_example =
    handle_write_-failed 101 7 sending_server (104 ∷ 105 ∷ []) refl some_left
