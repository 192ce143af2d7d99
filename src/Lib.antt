-- ===== src/Lib.antt =====
-- A model of Cpp_WebServer: a web server of one event loop and a pool of workers (WebServer_Proj), with
-- the servers (HTTP-Protocol, IO-Models, Network) and the exercises that led to it, and what makes its
-- parts correct.
--
-- The main thread (WebServer) waits on epoll. A listening socket gives new connections, which are
-- entered in `users_`, by descriptor, and in the list of timers; a readable connection is read by
-- the main thread (HttpConn::read) and given to the thread pool, whose worker parses what came and
-- prepares the reply (HttpConn::process), with the help of the database pool for a login, and
-- registers the descriptor again; a writable one is written by the main thread (HttpConn::write).
-- SIGALRM reaches the loop through a pipe, and connections that were idle too long are closed.
-- The earlier servers have one loop in four versions, which hands a client whose bytes have come to a
-- worker (handle_client); the worker parses, sends the reply itself, and arms the client again or
-- closes it.
--
-- Files and the code they model:
--   Base, Base/*       names of the libraries, lists and integers over the native numbers
--   Kernel             the words for epoll flags and kernel calls
--   Text, Text/*       std::string and <string> functions on bytes: find, stoi, to_string, words
--   Timer              WebServer_Proj/Timer/Timer.cpp, Timer.h, TimerNode.h: one function per method;
--                      Order, Deadlines, Size and Registry hold what is proved
--   MySql              WebServer_Proj/MySQL_Pool/MySQL_Pool.cpp and .h, the guard included; Lending
--                      and Sharing hold what is proved
--   Conn               WebServer_Proj/HttpConn/HttpConn.h, and of HttpConn.cpp init, reset, close_conn,
--                      unmap; Descriptor says which operations change m_sockfd
--   Conn/Parse         get_line, parse_request: `parse_round` is one test of the loop and its body;
--                      Round and Total are about the loop, Arrive and Resume about requests that come
--                      in pieces, Unread, Fields, RoundTrip, Body and Cut about what is read back
--   Conn/Reply         send_error, serve_static_file, make_response, check_login, parse_post_data
--   Conn/Transfer      read and write; Vectors, Advance, Complete and Progress are about write
--   Conn/Process       process; Serve and Missing follow a request through read, process and write
--   Epoller            WebServer_Proj/Epoller/Epoller.cpp
--   Workers            WebServer_Proj/Thread_Pool/Thread_Pool.h: `worker_step` is what a worker does
--                      between two points where it holds or takes the mutex
--   Server             WebServer_Proj/WebServer/WebServer.cpp: `dispatch` is the body of the loop over
--                      the events; Book, Expiry and Invariant hold the invariant, Handlers, Timeouts
--                      and Failures what the handlers do
--   Server/Loop        start with its loop, whose `turn` is an event or what a worker does beside it, the
--                      destructor, and main of main.cpp; Fresh, Off, Made, Sigterm and Ends hold what is
--                      proved
--   Logger             WebServer_Proj/Logger/Logger.h
--   TimerTest          Timer/timer_test.cpp
--   SafeQueue          Base/Mutex/producer_consumer_fixed.cpp: the queue
--   SafeQueue/System   its producers, consumers and main, with the condition variables; Rounds, Wakes, Tally,
--                      Joins, Kept, Ends, Effort, Awake, Ready and Progress hold what is proved
--   Threadpool         Base/Threadpool/Threadpool.h, a worker's moves as a relation; Same and Reached
--                      relate it to Workers
--   Stages             HTTP-Protocol: ClientState of v2_http_parser.cpp and v3_http_mysql.cpp
--   Stages/Parse       get_line, parse_http_request; of the third; Lines and Same relate them to Conn/Parse,
--                      Second to Stages/Second
--   Stages/Second      get_line and parse_http_request of the second server
--   Stages/Pool        HTTP-Protocol/mysql_pool.h
--   Stages/Reply       the replies and check_login; Framing and Login hold what is proved
--   Stages/Handle      handle_client; Settles, Range, Serve and Login hold what is proved
--   Stages/Basic       v1_http_basic.cpp: its client and its handle_client
--   Stages/Loop        the loop of main, which the servers share, over the record `Stage` of what they
--                      do not; Reach is its runs with the workers, Accept, Receive and Safe hold what
--                      is proved
--   Stages/Servers     the three servers as instances of it, and main; Keep, InRange and Main
--                      hold what is proved
--   Stages/Watch       what the kernel makes of the calls on a descriptor
--   Stages/Hello       IO-Models/Webserver_Basic.cpp, one more instance
--   IoModels           IO-Models: what its servers do with a descriptor
--   IoModels/Poll      TCP_Server_Poll.cpp; Table, Entries, Passes and Rounds hold what is proved
--   IoModels/Select    TCP_Server_Select.cpp; Passes holds what is proved
--   IoModels/Epoll     TCP_Server_Epoll.cpp
--   Network            Network: the three servers
--   Examples, Examples/*  runs at concrete inputs
--
-- How the code is read. A descriptor is a number and -1 is `none`. A byte is a number below 256, and
-- a string a list of bytes. `size_t` and `int` keep their wrap-around where the code can reach it (the
-- length in parse_post_data, the conversion of stoi's result); sizes of buffers and times are not
-- bounded. A method is a function that takes what the kernel, the clock and the client library answer
-- to it, gives the new state, and lists the kernel calls that it makes. The file system and the
-- database are the record `Host`.
--
-- Undefined behaviour. A function of Stages gives `none` where the source writes past `sql`, indexes
-- behind `users`, or passes on a null handle.
--
-- Fuel. The loops of parse_request and of the two parse_http_request need it: each round but the last
-- moves the position by two bytes or more, so the length of the buffer and two is enough, and theorems
-- say that the loops never run out. So do the loops over the entries of poll and over the descriptors
-- of select: a round goes on to the next place or takes an entry away, and a pass adds one entry at most,
-- so the number of entries and two is enough for poll, and the 1024 places of the set and one for select.
-- The loops over accept, recv, writev and epoll_wait are recursions over what the kernel answers.
--
-- Interleavings. In `Server.Invariant.Reach` the main thread handles one event, a worker makes one
-- step, or a worker runs its task, in any order; a handler and a task are not interleaved inside. So
-- in `Stages.Loop.Reach.Reach`, where also the kernel's part is a step's condition: it delivers events
-- on armed descriptors, disarms a one-shot one, and `accept` gives descriptors that are not open.
--
-- Condition variables. A thread of producer_consumer_fixed.cpp that waits moves on only after a
-- notification that chooses it, or by a wakeup of its own, which the theorems do not count on.
--
-- Short writes. The servers of HTTP-Protocol do not look at what writev and send give; the calls are
-- listed with all their bytes, and `taken_by` says which of them a socket has room for.
--
-- Not modelled: the futures of the pool, get_ip, setsockopt and the address of bind, errno, the
-- lines that are logged, and the exceptions of allocation; what a task does after `delete[]
-- users_`; the exercises Mutex_basic.cpp, Thread_Basic.cpp and Threadpool_Test.cpp of Base, which
-- print. The thread pools that the files of HTTP-Protocol and IO-Models hold have the text of
-- Base/Threadpool; a server's loop has its queue.

pub mod Base
pub mod IoModels
pub mod Network
pub mod Kernel
pub mod Text
pub mod Timer
pub mod MySql
pub mod Conn
pub mod Epoller
pub mod Workers
pub mod Server
pub mod Stages
pub mod Threadpool
pub mod Logger
pub mod TimerTest
pub mod SafeQueue
pub mod Examples
