-- ===== src/Examples/Stages.antt =====
-- Tests and examples of HTTP-Protocol.
use cpp_web_server.Base.{
  ℕ, ◌+◌, ◌<◌, ◌==◌, set, ◌≡◌, ◌≢◌, refl, true, false, some, [], ◌∷◌, ◌++◌, length, if◌then◌else◌,
  arith,
}
use cpp_web_server.Kernel.{no_events}
use cpp_web_server.Text.{Bytes, text, c_str}
use cpp_web_server.Text.Find.{crlf}
use cpp_web_server.Conn.Parse.{parse_request}
use cpp_web_server.Conn.Transfer.{recv_would_block}
use cpp_web_server.Stages
use cpp_web_server.Stages.{ClientState, to_int, Outcome, out_of_fuel}
use cpp_web_server.Stages.Parse.{parse_http_request, body_substr}
use cpp_web_server.Stages.Parse.Lines.{to_conn, IsInRange}
use cpp_web_server.Stages.Parse.Same.{SameRun, parse_http_request-SameRun}
use cpp_web_server.Stages.Parse.Second.{forget, forget_run, parse_second-forget}
use cpp_web_server.Stages.Second.{parse_second}
use cpp_web_server.Stages.Loop.{add_calls, Event, on_event, accept_all, receive}
use cpp_web_server.Stages.Loop.Reach.{disarm, Reach, begins, event}
use cpp_web_server.Stages.Loop.Safe.{Reach-parked}
use cpp_web_server.Stages.Pool.{MySqlPool}
use cpp_web_server.Stages.Servers.{new_client, third_stage}
use cpp_web_server.Stages.Servers.Keep.{third_stuck, third_stage-Laws}
use cpp_web_server.Stages.Servers.InRange.{Third, AllShort, third_start, third_stage-IsInRange}
use cpp_web_server.Stages.Watch.{Watch, armed, unopened, parked, seen_all}
use cpp_web_server.Base.{times}
use cpp_web_server.Conn.Reply.{check_login as last_check_login}
use cpp_web_server.Stages.Reply.{check_login}
use cpp_web_server.Stages.Reply.Login.{whole_sql, to_pool, of_pool, check_login-of_pool}
use cpp_web_server.Threadpool.{Threadpool, new_threadpool, takes, submit}
use cpp_web_server.Threadpool.Reached.{Reached, at_start, moves, takes_in, Told, Reached-Told}
use cpp_web_server.Workers.{waiting, running}
use cpp_web_server.Examples.{small_host}

-- A login of the third server as it comes, its body whole.
abbrev post_login : Bytes
post_login =
    text "POST /login HTTP/1.1"
    ++ (crlf ++ (text "Content-Length: 19" ++ (crlf ++ (crlf ++ text "user=bob&password=1"))))

abbrev posting : ClientState Bytes
posting = record (new_client []) { fd = 5; buffer = post_login }

posting-IsInRange : IsInRange posting
unfolding text
posting-IsInRange = record { short = omega arith; within = omega arith; int_length = omega arith }

parse_http_request-SameRun_example :
    SameRun (parse_http_request body_substr posting) (parse_request (to_conn posting))
    × ((parse_http_request body_substr posting).0 ≢ out_of_fuel)
parse_http_request-SameRun_example = parse_http_request-SameRun posting posting-IsInRange

parse_second-forget_example :
    parse_second (forget posting) ≡ forget_run (parse_http_request body_substr posting)
parse_second-forget_example = parse_second-forget posting posting-IsInRange

-- Two connections to the database.
abbrev two_pool : MySqlPool
two_pool = record { pool = 100 ∷ 101 ∷ []; max_conn = 10 }

-- A client is accepted, and a part of its request comes.
abbrev accepting : Event
accepting = record {
  fd = 3;
  events = record no_events { epollin = true };
  accepted = (5, true) ∷ [];
  arrival = record { chunks = []; stop = recv_would_block };
}

abbrev coming : Event
coming = record {
  fd = 5;
  events = record no_events { epollin = true };
  accepted = [];
  arrival = record { chunks = (71 ∷ []) ∷ []; stop = recv_would_block };
}

abbrev accepted_one : Third
accepted_one = record {
  users = λ i. if i == 5 then Stages.init [] 5 (new_client []) else new_client [];
  tasks = [];
  shared = two_pool;
}

abbrev queued_one : Third
queued_one = record {
  users = λ i.
      if i == 5
      then record (Stages.init [] 5 (new_client [])) { buffer = 71 ∷ [] }
      else accepted_one.users i;
  tasks = 5 ∷ [];
  shared = two_pool;
}

abbrev watch_0 : ℕ → Watch
watch_0 i = if 3 == i then armed else unopened

abbrev watch_1 : ℕ → Watch
watch_1 = seen_all (add_calls 5 true ++ []) (disarm 3 3 watch_0)

abbrev watch_2 : ℕ → Watch
watch_2 = seen_all [] (disarm 3 5 watch_1)

accepting_step :
    on_event (third_stage small_host) 3 accepting (third_start two_pool)
    ≡ some (accepted_one, add_calls 5 true ++ [])
unfolding on_event accept_all
accepting_step = refl

coming_step : on_event (third_stage small_host) 3 coming accepted_one ≡ some (queued_one, [])
unfolding on_event receive c_str Stages.init
coming_step = refl

no_users-AllShort : AllShort (third_start two_pool)
no_users-AllShort i = omega arith

accepted_one-AllShort : AllShort accepted_one
unfolding Stages.init
accepted_one-AllShort i = ground arith

queued_one-AllShort : AllShort queued_one
unfolding Stages.init
queued_one-AllShort i = ground arith

run_to_queued :
    Reach
      (third_stage small_host)
      third_stuck
      3
      AllShort
      (third_start two_pool)
      queued_one
      watch_2
      []
unfolding c_str Stages.init
run_to_queued =
    event
      (event (begins no_users-AllShort) accepting refl (refl, tt) accepting_step
        accepted_one-AllShort)
      coming refl tt coming_step queued_one-AllShort

-- The task of the client is queued once, and its descriptor is disarmed.
Reach-parked_example : times 5 queued_one.tasks + times 5 [] ≡ parked (watch_2 5)
Reach-parked_example =
    Reach-parked (third_stage small_host) third_stuck (third_stage-Laws small_host) 3 refl
      run_to_queued 5

disarmed_open : watch_2 5 ≢ unopened
disarmed_open e = cc

third_stage-IsInRange_example : IsInRange (queued_one.users 5)
third_stage-IsInRange_example =
    third_stage-IsInRange small_host 3 two_pool run_to_queued 5 disarmed_open

test_parked : parked (watch_2 5) ≡ 1
test_parked = refl

-- The first pool with one worker, which is given a task and takes it.
abbrev one_task : Threadpool ℕ
one_task = record { stop = false; workers = waiting ∷ []; tasks = 7 ∷ []; pending_tasks = 1 }

one_taken :
    Reached 1
      (record one_task { tasks = []; workers = set (waiting ∷ []) 0 (running 7) })
      (7 ∷ [])
      (7 ∷ [])
unfolding new_threadpool submit
one_taken = moves (takes_in at_start 7 refl) 0 (takes refl refl)

Reached-Told_example :
    Told
      (record one_task { tasks = []; workers = set (waiting ∷ []) 0 (running 7) })
      (7 ∷ [])
      (7 ∷ [])
Reached-Told_example = Reached-Told one_taken

abbrev bob : Bytes
bob = 98 ∷ 111 ∷ 98 ∷ []

bob_fits : length (whole_sql bob bob) < 1024
unfolding text c_str
bob_fits = omega arith

check_login-of_pool_example :
    check_login small_host bob bob two_pool
    ≡ some (of_pool (last_check_login small_host [] bob bob (to_pool two_pool)))
check_login-of_pool_example = check_login-of_pool small_host bob bob two_pool bob_fits
