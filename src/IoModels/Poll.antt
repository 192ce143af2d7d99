-- ===== src/IoModels/Poll.antt =====
-- IO-Models/TCP_Server_Poll.cpp: the array of `pollfd` and the loop over it.
pub mod Table
pub mod Entries
pub mod Passes
pub mod Rounds
use cpp_web_server.Base.{
  ℕ, zero, suc, ◌-◌, ◌*◌, ◌==◌, Bool, true, false, Option, none, some, List, [], ◌∷◌, ◌++◌, ltb,
  leb, get_or, set, replicate, if◌then◌else◌,
}
use cpp_web_server.Text.{Bytes, text}
use cpp_web_server.IoModels.{
  Act, accepts, receives, closes, sends, Received, came, gave_nothing, waits, response, Opening,
  open_listen,
}

-- `struct pollfd`, with the bit POLLIN of `events` and of `revents`.
pub record PollFd : Type 0 where
  pub fd : ℕ
  pub events : Bool
  pub revents : Bool

pub record PollServer : Type 0 where
  pub fds : List PollFd
  pub nfds : ℕ

abbrev pub max_fds : ℕ
max_fds = 1024

abbrev pub no_fd : PollFd
no_fd = record { fd = 0; events = false; revents = false }

abbrev pub new_server : ℕ → PollServer
new_server listenfd = record {
  fds = set (replicate max_fds no_fd) 0 (record { fd = listenfd; events = true; revents = false });
  nfds = 1;
}

-- What the calls of a pass give: the descriptor of `accept`, or none, and what comes on the clients'.
pub record Answers : Type 0 where
  pub accepted : Option ℕ
  pub recv : ℕ → Received

-- The loop goes on at an index, or waits in `recv`.
pub data Next : Type 0 where
  goes_on : ℕ → PollServer → List Act → Next
  waits_on : ℕ → Next

-- The server's page.
abbrev pub poll_page : Bytes
poll_page = text "<h1>Hello from poll server!</h1>"

-- The new entry keeps the `revents` that its place in the array has.
abbrev pub new_entry : ℕ → PollServer → PollServer
new_entry client_fd s = record s {
  fds =
      set s.fds s.nfds
        (record { fd = client_fd; events = true; revents = (get_or s.fds s.nfds no_fd).revents });
  nfds = suc s.nfds;
}

abbrev pub take_client : ℕ → ℕ → PollServer → Next
take_client client_fd i s =
    if ltb 0 client_fd
    then if leb max_fds s.nfds
      then goes_on (suc i) s (accepts client_fd ∷ closes client_fd ∷ [])
      else goes_on (suc i) (new_entry client_fd s) (accepts client_fd ∷ [])
    else goes_on (suc i) s (accepts client_fd ∷ [])

abbrev pub accept_client : Option ℕ → ℕ → PollServer → Next
accept_client none i s = goes_on (suc i) s []
accept_client (some client_fd) i s = take_client client_fd i s

-- The last entry takes the place of the one that is closed.
abbrev pub remove_entry : ℕ → PollServer → PollServer
remove_entry i s = record s {
  fds = set s.fds i (get_or s.fds (s.nfds - 1) no_fd);
  nfds = s.nfds - 1;
}

abbrev pub receive : Received → ℕ → ℕ → PollServer → Next
receive came fd i s = goes_on (suc i) s (receives fd ∷ sends fd (response poll_page) ∷ [])
receive gave_nothing fd i s = goes_on i (remove_entry i s) (receives fd ∷ closes fd ∷ [])
receive waits fd i s = waits_on fd

-- The body of the loop, with its `i++`.
unfoldable pub on_entry : ℕ → Answers → ℕ → PollServer → Next
on_entry listenfd k i s =
    let e = get_or s.fds i no_fd in
    if e.revents
    then if e.fd == listenfd then accept_client k.accepted i s else receive (k.recv e.fd) e.fd i s
    else goes_on (suc i) s []

pub data Pass : Type 0 where
  passed : PollServer → List Act → Pass
  stuck_on : ℕ → Pass
  unfinished : Pass

abbrev pub before : List Act → Pass → Pass
before acts (passed s more) = passed s (acts ++ more)
before acts (stuck_on fd) = stuck_on fd
before acts unfinished = unfinished

abbrev pub goes_next : (ℕ → PollServer → Pass) → Next → Pass
goes_next rest (goes_on i s acts) = before acts (rest i s)
goes_next rest (waits_on fd) = stuck_on fd

-- The loop over the array.
unfoldable pub pass_loop : ℕ → ℕ → Answers → ℕ → PollServer → Pass
unfolding on_entry
pass_loop zero listenfd k i s = unfinished
pass_loop (suc fuel) listenfd k i s =
    let rest = pass_loop fuel listenfd k in
    if ltb i s.nfds then goes_next rest (on_entry listenfd k i s) else passed s []

-- `poll`, which sets `revents` of the first `nfds` entries.
abbrev pub mark : (ℕ → Bool) → ℕ → List PollFd → List PollFd
mark ready zero es = es
mark ready (suc n) [] = []
mark ready (suc n) (e ∷ es) = record e { revents = ready e.fd } ∷ mark ready n es

abbrev pub poll : (ℕ → Bool) → PollServer → PollServer
poll ready s = record s { fds = mark ready s.nfds s.fds }

-- A pass of the outer loop.
unfoldable pub serve_pass : ℕ → (ℕ → Bool) → Answers → PollServer → Pass
unfolding pass_loop
serve_pass listenfd ready k s = pass_loop (suc (suc s.nfds)) listenfd k 0 (poll ready s)

-- What a return of `poll` finds, and what the calls behind it give.
pub record Wake : Type 0 where
  pub ready : ℕ → Bool
  pub answers : Answers

abbrev pub later_passes : (PollServer → Pass) → Pass → Pass
later_passes rest (passed s acts) = before acts (rest s)
later_passes rest (stuck_on fd) = stuck_on fd
later_passes rest unfinished = unfinished

-- The outer loop, over what `poll` gives; `none` where it fails.
unfoldable pub serve_loop : ℕ → List (Option Wake) → PollServer → Pass
unfolding serve_pass
serve_loop listenfd [] s = passed s []
serve_loop listenfd (none ∷ rest) s = serve_loop listenfd rest s
serve_loop listenfd (some w ∷ rest) s =
    later_passes (serve_loop listenfd rest) (serve_pass listenfd w.ready w.answers s)

abbrev pub serve_on : List (Option Wake) → Option ℕ → Option Pass
serve_on wakes none = none
serve_on wakes (some listenfd) = some (serve_loop listenfd wakes (new_server listenfd))

-- `none` where the loop is not reached.
unfoldable pub poll_main : Opening → List (Option Wake) → Option Pass
unfolding open_listen serve_loop
poll_main o wakes = serve_on wakes (open_listen o)
