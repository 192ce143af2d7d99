-- ===== src/Conn/Process.antt =====
-- WebServer_Proj/HttpConn: `process`, the task that a worker runs. An exception of `std::stoi` ends the
-- task where it is thrown: `std::packaged_task` keeps it for a future that nobody reads.
pub mod Answers
pub mod Receive
pub mod Serve
pub mod Missing
use cpp_web_server.Base.{ℕ, List, [], ◌∷◌}
use cpp_web_server.Kernel.{Syscall, Events, epoll_ctl, epoll_ctl_mod, read_events, write_events}
use cpp_web_server.Text.{text}
use cpp_web_server.MySql.{MySqlPool}
use cpp_web_server.Conn.{HttpConn, HttpCode, no_request, bad_request}
use cpp_web_server.Conn.Parse.{Outcome, returned, thrown, out_of_fuel, parse_request}
use cpp_web_server.Conn.Reply.{Host, send_error, make_response}

-- `epoll_ctl(m_epollfd, EPOLL_CTL_MOD, m_sockfd, &ev)`
abbrev pub rearm : Events → HttpConn → Syscall
rearm events c = epoll_ctl (epoll_ctl_mod events) c.m_sockfd

abbrev pub respond :
    Host → List ℕ → Outcome → HttpConn → MySqlPool → HttpConn × MySqlPool × List Syscall
respond host arrivals (returned no_request) c pool = (c, pool, rearm read_events c ∷ [])
respond host arrivals (returned bad_request) c pool =
    let c' = send_error 400 (text "Bad Request") c in (c', pool, rearm write_events c' ∷ [])
respond host arrivals (returned _) c pool =
    let (c', pool') = make_response host arrivals c pool in (c', pool', rearm write_events c' ∷ [])
respond host arrivals (thrown e) c pool = (c, pool, [])
respond host arrivals out_of_fuel c pool = (c, pool, [])

unfoldable pub process : Host → List ℕ → HttpConn → MySqlPool → HttpConn × MySqlPool × List Syscall
process host arrivals c pool =
    let (outcome, parsed) = parse_request c in respond host arrivals outcome parsed pool
