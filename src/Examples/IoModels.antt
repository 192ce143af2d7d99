-- ===== src/Examples/IoModels.antt =====
-- Runs of the servers of IO-Models.
use cpp_web_server.Base.{
  ℕ, ◌==◌, ◌≡◌, ◌≢◌, refl, Bool, true, ◌||◌, none, some, [], ◌∷◌, if◌then◌else◌, arith, List, false,
  length,
}
use cpp_web_server.IoModels.{
  Received, came, gave_nothing, waits, accepts, closes, receives, watches, unwatches,
}
use cpp_web_server.IoModels.Select
use cpp_web_server.IoModels.Select.Passes.{Selected, serve_pass-Selected, new_server-IsSelected}
use cpp_web_server.Network
use cpp_web_server.Network.{Threaded, IsServed, move-IsServed}
use cpp_web_server.Text.{text}
use cpp_web_server.IoModels.Epoll
use cpp_web_server.IoModels.Epoll.{IsRegistered, on_event-IsRegistered}
use cpp_web_server.IoModels.Poll.{
  Answers, new_server, stuck_on, Wake, serve_loop, serve_pass, pass_loop, on_entry,
}
use cpp_web_server.IoModels.Poll.Entries.{IsFresh}
use cpp_web_server.IoModels.Poll.Rounds.{Outcome, serve_pass-Outcome, new_server-IsTable}

-- Two clients come; the first leaves when the second has sent; a third comes and sends nothing.
abbrev quiet : ℕ → Received
quiet fd = waits

abbrev only : ℕ → ℕ → Bool
only fd i = i == fd

abbrev comes : ℕ → Wake
comes fd = record { ready = only 3; answers = record { accepted = some fd; recv = quiet } }

abbrev leaves : Wake
leaves = record {
  ready = λ i. i == 4 || i == 5;
  answers = record { accepted = none; recv = λ i. if i == 4 then gave_nothing else came };
}

-- The third entry has the `revents` that the second client left behind, and the server waits for the
-- third client.
test_stale :
    serve_loop 3
      (some (comes 4) ∷ some (comes 5) ∷ some leaves ∷ some (comes 6) ∷ [])
      (new_server 3)
    ≡ stuck_on 6
unfolding serve_loop serve_pass pass_loop on_entry
test_stale = refl

ready_comes : (fd : ℕ) → only 3 fd ≡ true → came ≢ waits
ready_comes fd e n = cc

abbrev first_answers : Answers
first_answers = record { accepted = some 4; recv = λ i. came }

first_answers-IsFresh : IsFresh 3 [] first_answers
first_answers-IsFresh = record {
  positive = λ fd e. ground (arith, e);
  other = λ fd e. ground (arith, e);
  closed = λ fd e. refl;
}

serve_pass-Outcome_example :
    Outcome 3 first_answers [] (serve_pass 3 (only 3) first_answers (new_server 3))
serve_pass-Outcome_example =
    serve_pass-Outcome 3 (only 3) first_answers [] (new_server 3) (new_server-IsTable 3) ready_comes
      first_answers-IsFresh

-- A new client with a descriptor that `fd_set` has no bit for.
abbrev wakes : ℕ → Select.Wake
wakes fd = record { ready = only 3; answers = record { accepted = some fd; recv = quiet } }

test_overrun :
    Select.serve_loop 3 (some (wakes 1024) ∷ []) (Select.new_server 3) ≡ Select.overrun_by 1024
unfolding Select.serve_loop Select.serve_pass Select.pass_loop Select.on_fd
test_overrun = refl

-- epoll takes the first client and not the second, which is closed.
abbrev refused : List Epoll.Event
refused =
    record { fd = 3; accepted = some 4; added = true; recv = came }
    ∷ record { fd = 3; accepted = some 5; added = false; recv = came }
    ∷ record { fd = 4; accepted = none; added = true; recv = gave_nothing }
    ∷ []

test_refused :
    Epoll.on_events 3 refused
    ≡ some (accepts 4 ∷ watches 4 ∷ accepts 5 ∷ closes 5 ∷ receives 4 ∷ unwatches 4 ∷ closes 4 ∷ [])
unfolding Epoll.on_events Epoll.on_event
test_refused = refl

-- The page of the servers of Network, which TCP_Server_Thread.cpp announces with 19 bytes.
test_page : length Network.page ≡ 15
unfolding text
test_page = refl

abbrev first_comes : Select.Answers
first_comes = record { accepted = some 4; recv = λ i. came }

serve_pass-Selected_example :
    Selected 3 first_comes [] (Select.serve_pass 3 (only 3) first_comes (Select.new_server 3))
serve_pass-Selected_example =
    serve_pass-Selected 3 (only 3) first_comes [] (Select.new_server 3)
      (new_server-IsSelected 3 (omega arith)) ready_comes (λ fd e. ground (arith, e))

-- The listening descriptor is registered, and a client comes.
abbrev client_comes : Epoll.Event
client_comes = record { fd = 3; accepted = some 4; added = true; recv = came }

listening-IsRegistered : IsRegistered 3 (watches 3 ∷ [])
listening-IsRegistered v = ground arith

client_comes-IsFresh : Epoll.IsFresh 3 (watches 3 ∷ []) client_comes
client_comes-IsFresh = record {
  positive = λ fd e. ground (arith, e);
  other = λ fd e. ground (arith, e);
  closed = λ fd e. refl;
}

client_accepted : Epoll.on_event 3 client_comes ≡ some (accepts 4 ∷ watches 4 ∷ [])
unfolding Epoll.on_event
client_accepted = refl

on_event-IsRegistered_example : IsRegistered 3 (watches 3 ∷ accepts 4 ∷ watches 4 ∷ [])
on_event-IsRegistered_example =
    on_event-IsRegistered 3 (watches 3 ∷ []) (accepts 4 ∷ watches 4 ∷ []) client_comes
      listening-IsRegistered client_comes-IsFresh client_accepted

-- Two clients are with their threads, and the first is handled.
abbrev two_threads : Threaded
two_threads = record { clients = 4 ∷ 5 ∷ []; log = accepts 4 ∷ accepts 5 ∷ [] }

two_threads-IsServed : IsServed two_threads
two_threads-IsServed v = ground arith

move-IsServed_example :
    IsServed (Network.move Network.pool_reply (Network.handles 0 came) two_threads)
move-IsServed_example =
    move-IsServed Network.pool_reply (Network.handles 0 came) two_threads tt two_threads-IsServed
