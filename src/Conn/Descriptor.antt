-- ===== src/Conn/Descriptor.antt =====
-- WebServer_Proj/HttpConn: which operations change the descriptor of a connection.
use cpp_web_server.Base.{
  [], ◌∷◌, ◌++◌, Option-cases, ℕ, zero, suc, ◌+◌, ◌-◌, ◌≤◌, ◌≡◌, refl, ◌∙◌, Bool, true, false,
  Option, none, some, List, [], ◌∷◌, ℤ, decrement, leb, ◌==◌, length, length-append, Bool-cases,
  inl, inr, if◌then◌else◌, arith,
}
use cpp_web_server.Kernel.{SockAddr, epoll_ctl, epoll_ctl_del, close}
use cpp_web_server.MySql.{MySqlPool}
use cpp_web_server.Conn.{
  nullptr, HttpConn, no_request, get_request, bad_request, internal_error, reset, init, unmap,
  close_conn,
}
use cpp_web_server.Conn.Parse.{Outcome, returned, thrown, out_of_fuel, parse_request}
use cpp_web_server.Conn.Parse.Total.{parse_request-Parsed}
use cpp_web_server.Conn.Reply.{
  Host, send_error, send_login_response, serve_static_file, make_response,
}
use cpp_web_server.Conn.Transfer.{
  Arrival, received, read, drop_sent, shift_vectors, advance, SendStop, Written, stopped, finished,
  write_loop, write,
}
use cpp_web_server.Conn.Process.{respond, process}

-- A connection with a descriptor loses it and is uncounted.
pub close_conn_open :
    (c : HttpConn) (count : ℤ) {fd : ℕ}
    → c.m_sockfd ≡ some fd
    → ((close_conn true c count).0.m_sockfd ≡ none)
      × ((close_conn true c count).1 ≡ decrement count)
unfolding close_conn
close_conn_open c count {fd} e = ground arith

pub close_conn_closed :
    (c : HttpConn) (count : ℤ)
    → c.m_sockfd ≡ none
    → ((close_conn true c count).0.m_sockfd ≡ none) × ((close_conn true c count).1 ≡ count)
unfolding close_conn
close_conn_closed c count e = ground arith

pub closed-none : (c : HttpConn) (count : ℤ) → (close_conn true c count).0.m_sockfd ≡ none
closed-none c count = elim (Option-cases c.m_sockfd) [
  | inl e ↦ (close_conn_closed c count e).0
  | inr (fd, e) ↦ (close_conn_open c count e).0
]

-- `close_conn(true)`, in all cases: the connection has no descriptor and no mapping left; where it
-- had a descriptor that is taken out of epoll, closed and uncounted, and where it had none nothing
-- is closed and nothing uncounted; and the mapping, if there was one, is released after that.
pub close_conn_lem :
    (c : HttpConn) (count : ℤ)
    → ((close_conn true c count).0.m_sockfd ≡ none)
      × ((close_conn true c count).0.m_mmap_addr ≡ nullptr)
      × ((close_conn true c count).1 ≡ elim c.m_sockfd [ none ↦ count | some fd ↦ decrement count ])
      × ((close_conn true c count).2
          ≡ elim c.m_sockfd [
            | none ↦ []
            | some fd ↦ epoll_ctl epoll_ctl_del (some fd) ∷ close fd ∷ []
          ]
            ++ (unmap c).1)
unfolding close_conn unmap
close_conn_lem c count = elim (Option-cases c.m_sockfd) [
  | inl e ↦ (ground arith, ground arith, ground arith, ground arith)
  | inr (fd, e) ↦ (ground arith, ground arith, ground arith, ground arith)
]

-- The connection has this descriptor, or none, and its position lies within its buffer.
pub record IsAt (o : Option ℕ) (c : HttpConn) : Type 0 where
  pub fd_is : c.m_sockfd ≡ o
  pub within : c.m_checked_idx ≤ length c.m_read_buf

pub init-IsAt :
    (fd : ℕ) (addr : SockAddr) (c : HttpConn) (count : ℤ) → IsAt (some fd) (init fd addr c count).0
unfolding init
init-IsAt fd addr c count = record { fd_is = refl; within = omega arith }

pub close_conn-IsAt :
    (c : HttpConn) (count : ℤ) {o : Option ℕ} → IsAt o c → IsAt none (close_conn true c count).0
unfolding close_conn
close_conn-IsAt c count {o} i = ground arith

pub reset-IsAt : {o : Option ℕ} (c : HttpConn) → IsAt o c → IsAt o (reset c)
unfolding reset
reset-IsAt c i = record { fd_is = i.fd_is; within = omega arith }

pub read-IsAt : {o : Option ℕ} (a : Arrival) (c : HttpConn) → IsAt o c → IsAt o (read a c).1
unfolding read
read-IsAt a c i = record {
  fd_is = i.fd_is;
  within = omega (arith, i.within, length-append c.m_read_buf (received a.chunks));
}

drop_sent-IsAt :
    {o : Option ℕ} (count n : ℕ) (c : HttpConn) → IsAt o c → IsAt o (drop_sent count n c).1
unfolding drop_sent
drop_sent-IsAt zero n c i = i
drop_sent-IsAt {o} (suc count) n c i =
    ground (arith, drop_sent-IsAt {o = o} count (n - c.m_iv_0.iov_len) (shift_vectors count c))

advance-IsAt : {o : Option ℕ} (n : ℕ) (c : HttpConn) → IsAt o c → IsAt o (advance n c)
unfolding advance
advance-IsAt {o} n c i = ground (
  arith,
  drop_sent-IsAt {o = o} c.m_iv_count n (record c { m_bytes_have_send = c.m_bytes_have_send + n }),
)

stopped-IsAt :
    {o : Option ℕ} (stop : SendStop) (c : HttpConn) → IsAt o c → IsAt o (stopped stop c).conn
unfolding unmap
stopped-IsAt stop c i = ground arith

finished-IsAt : {o : Option ℕ} (c : HttpConn) → IsAt o c → IsAt o (finished c).conn
unfolding unmap
finished-IsAt c i = ground arith

write_loop-IsAt :
    {o : Option ℕ} (counts : List ℕ) (stop : SendStop) (c : HttpConn)
    → IsAt o c
    → IsAt o (write_loop counts stop c).conn
unfolding write_loop
write_loop-IsAt [] stop c i = stopped-IsAt stop c i
write_loop-IsAt (zero ∷ counts) stop c i = write_loop-IsAt counts stop c i
write_loop-IsAt {o} (suc n ∷ counts) stop c i =
    let j = advance-IsAt (suc n) c i in
    let more = write_loop-IsAt counts stop (advance (suc n) c) j in
    let all = finished-IsAt (advance (suc n) c) j in
    pick (finished (advance (suc n) c)) (write_loop counts stop (advance (suc n) c))
      (leb (advance (suc n) c).m_bytes_to_send (advance (suc n) c).m_bytes_have_send) all more
  where
    pick :
        (v w : Written) (b : Bool)
        → IsAt o v.conn
        → IsAt o w.conn
        → IsAt o (if b then v else w).conn
    pick v w true p q = p
    pick v w false p q = q

pub write-IsAt :
    {o : Option ℕ} (counts : List ℕ) (stop : SendStop) (c : HttpConn)
    → IsAt o c
    → IsAt o (write counts stop c).conn
unfolding write
write-IsAt counts stop c i = elim (Bool-cases (c.m_bytes_to_send == 0)) [
  | inl e ↦ rw e i
  | inr e ↦ rw e (write_loop-IsAt counts stop c i)
]

serve_static_file-IsAt :
    {o : Option ℕ} (host : Host) (c : HttpConn) → IsAt o c → IsAt o (serve_static_file host c)
unfolding serve_static_file send_error
serve_static_file-IsAt host c i = ground arith

make_response-IsAt :
    {o : Option ℕ} (host : Host) (arrivals : List ℕ) (c : HttpConn) (pool : MySqlPool)
    → IsAt o c
    → IsAt o (make_response host arrivals c pool).0
unfolding make_response send_login_response
make_response-IsAt {o} host arrivals c pool i =
    ground (arith, serve_static_file-IsAt {o = o} host c i)

respond-IsAt :
    {o : Option ℕ} (host : Host) (arrivals : List ℕ) (r : Outcome) (c : HttpConn) (pool : MySqlPool)
    → IsAt o c
    → IsAt o (respond host arrivals r c pool).0
unfolding send_error
respond-IsAt host arrivals (returned no_request) c pool i = i
respond-IsAt host arrivals (returned get_request) c pool i =
    make_response-IsAt host arrivals c pool i
respond-IsAt host arrivals (returned bad_request) c pool i = record {
  fd_is = i.fd_is;
  within = i.within;
}
respond-IsAt host arrivals (returned internal_error) c pool i =
    make_response-IsAt host arrivals c pool i
respond-IsAt host arrivals (thrown e) c pool i = i
respond-IsAt host arrivals out_of_fuel c pool i = i

pub process-IsAt :
    {o : Option ℕ} (host : Host) (arrivals : List ℕ) (c : HttpConn) (pool : MySqlPool)
    → IsAt o c
    → IsAt o (process host arrivals c pool).0
unfolding process
process-IsAt host arrivals c pool i =
    let p = parse_request-Parsed c i.within in
    respond-IsAt host arrivals (parse_request c).0 (parse_request c).1 pool
      (record { fd_is = p.kept.same_fd ∙ i.fd_is; within = p.within })
