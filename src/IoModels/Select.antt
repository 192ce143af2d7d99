-- ===== src/IoModels/Select.antt =====
-- IO-Models/TCP_Server_Select.cpp: the set of descriptors and the loop over them.
pub mod Passes
use cpp_web_server.Base.{
  ℕ, zero, suc, ◌==◌, Bool, true, false, Option, none, some, List, [], ◌∷◌, ◌++◌, ltb, leb,
  if◌then◌else◌,
}
use cpp_web_server.Text.{Bytes, text}
use cpp_web_server.IoModels.{
  Act, accepts, receives, closes, sends, Received, came, gave_nothing, waits, response, Opening,
  open_listen,
}

-- `master_set` and `max_fd`.
pub record SelectServer : Type 0 where
  pub master_set : ℕ → Bool
  pub max_fd : ℕ

-- The descriptors that an `fd_set` has a bit for.
abbrev pub fd_setsize : ℕ
fd_setsize = 1024

abbrev pub new_server : ℕ → SelectServer
new_server listenfd = record { master_set = λ fd. fd == listenfd; max_fd = listenfd }

-- What the calls of a pass give.
pub record Answers : Type 0 where
  pub accepted : Option ℕ
  pub recv : ℕ → Received

-- `FD_SET` of a descriptor without a bit writes behind the set.
pub data Next : Type 0 where
  goes_on : SelectServer → List Act → Next
  waits_on overruns : ℕ → Next

abbrev pub fd_set : ℕ → Bool → SelectServer → SelectServer
fd_set fd b s = record s { master_set = λ v. if fd == v then b else s.master_set v }

abbrev pub raise_max : ℕ → SelectServer → SelectServer
raise_max fd s = if ltb s.max_fd fd then (record s { max_fd = fd }) else s

abbrev pub accept_client : Option ℕ → SelectServer → Next
accept_client none s = goes_on s []
accept_client (some client_fd) s =
    if ltb 0 client_fd
    then if ltb client_fd fd_setsize
      then goes_on (raise_max client_fd (fd_set client_fd true s)) (accepts client_fd ∷ [])
      else overruns client_fd
    else goes_on s (accepts client_fd ∷ [])

abbrev pub select_page : Bytes
select_page = text "<h1>Hello!</h1>"

abbrev pub receive : Received → ℕ → SelectServer → Next
receive came fd s = goes_on s (receives fd ∷ sends fd (response select_page) ∷ [])
receive gave_nothing fd s = goes_on (fd_set fd false s) (receives fd ∷ closes fd ∷ [])
receive waits fd s = waits_on fd

-- The body of the loop, where `ready` is `read_fds` behind `select`.
unfoldable pub on_fd : ℕ → (ℕ → Bool) → Answers → ℕ → SelectServer → Next
on_fd listenfd ready k fd s =
    if ready fd
    then if fd == listenfd then accept_client k.accepted s else receive (k.recv fd) fd s
    else goes_on s []

pub data Pass : Type 0 where
  passed : SelectServer → List Act → Pass
  stuck_on overrun_by : ℕ → Pass
  unfinished : Pass

abbrev pub before : List Act → Pass → Pass
before acts (passed s more) = passed s (acts ++ more)
before acts (stuck_on fd) = stuck_on fd
before acts (overrun_by fd) = overrun_by fd
before acts unfinished = unfinished

abbrev pub goes_next : (SelectServer → Pass) → Next → Pass
goes_next rest (goes_on s acts) = before acts (rest s)
goes_next rest (waits_on fd) = stuck_on fd
goes_next rest (overruns fd) = overrun_by fd

-- The loop over the descriptors.
unfoldable pub pass_loop : ℕ → ℕ → (ℕ → Bool) → Answers → ℕ → SelectServer → Pass
unfolding on_fd
pass_loop zero listenfd ready k fd s = unfinished
pass_loop (suc fuel) listenfd ready k fd s =
    let rest = pass_loop fuel listenfd ready k (suc fd) in
    if leb fd s.max_fd then goes_next rest (on_fd listenfd ready k fd s) else passed s []

-- A pass of the outer loop.
unfoldable pub serve_pass : ℕ → (ℕ → Bool) → Answers → SelectServer → Pass
unfolding pass_loop
serve_pass listenfd ready k s = pass_loop (suc fd_setsize) listenfd ready k 0 s

-- What a return of `select` finds, and what the calls behind it give.
pub record Wake : Type 0 where
  pub ready : ℕ → Bool
  pub answers : Answers

abbrev pub later_passes : (SelectServer → Pass) → Pass → Pass
later_passes rest (passed s acts) = before acts (rest s)
later_passes rest (stuck_on fd) = stuck_on fd
later_passes rest (overrun_by fd) = overrun_by fd
later_passes rest unfinished = unfinished

-- The outer loop, over what `select` gives; `none` where it fails.
unfoldable pub serve_loop : ℕ → List (Option Wake) → SelectServer → Pass
unfolding serve_pass
serve_loop listenfd [] s = passed s []
serve_loop listenfd (none ∷ rest) s = serve_loop listenfd rest s
serve_loop listenfd (some w ∷ rest) s =
    later_passes (serve_loop listenfd rest) (serve_pass listenfd w.ready w.answers s)

abbrev pub serve_on : List (Option Wake) → Option ℕ → Option Pass
serve_on wakes none = none
serve_on wakes (some listenfd) = some (serve_loop listenfd wakes (new_server listenfd))

-- `none` where the loop is not reached.
unfoldable pub select_main : Opening → List (Option Wake) → Option Pass
unfolding open_listen serve_loop
select_main o wakes = serve_on wakes (open_listen o)
