-- ===== src/Stages/Servers.antt =====
-- HTTP-Protocol: the three servers as instances of the loop, and `main`.
pub mod Keep
pub mod InRange
pub mod Main
use cpp_web_server.Base.{
  ℕ, Bool, true, false, ◌&&◌, Option, none, some, List, [], ◌∷◌, ◌++◌, pos, if◌then◌else◌,
}
use cpp_web_server.Kernel.{
  Syscall, epoll_ctl, epoll_ctl_add, listen_events, set_nonblocking, close, sigpipe_ignored,
}
use cpp_web_server.Text.{Bytes}
use cpp_web_server.Conn.{check_state_requestline}
use cpp_web_server.Conn.Reply.{Host}
use cpp_web_server.MySql.{Attempt}
use cpp_web_server.Stages
use cpp_web_server.Stages.{ClientState}
use cpp_web_server.Stages.Basic
use cpp_web_server.Stages.Handle.{handle_second, handle_client}
use cpp_web_server.Stages.Loop.{Stage, Serving, Event, Handled, run_loop}
use cpp_web_server.Stages.Pool.{MySqlPool, get_instance}
use cpp_web_server.Stages.Reply.{rearm}

abbrev pub first_done :
    Basic.ClientState × List Syscall → Option (Basic.ClientState × Unit {0} × List Syscall)
first_done (c, calls) = some (c, tt, calls)

-- The first server: a descriptor on which nothing has come is not armed again.
abbrev pub first_stage : Host → ℕ → Stage Basic.ClientState (Unit {0})
first_stage host garbage = record {
  fresh = λ fd c. record { fd = fd; buffer = [] };
  buffer = λ c. c.buffer;
  set_buffer = λ b c. record c { buffer = b };
  on_empty = λ fd. [];
  handle = λ fd c e. first_done (Basic.handle_client host garbage fd c);
}

abbrev pub second_stage : Host → Stage (ClientState (Unit {0})) (Unit {0})
second_stage host = record {
  fresh = Stages.init tt;
  buffer = λ c. c.buffer;
  set_buffer = λ b c. record c { buffer = b };
  on_empty = λ fd. rearm fd ∷ [];
  handle = handle_second host;
}

abbrev pub third_stage : Host → Stage (ClientState Bytes) MySqlPool
third_stage host = record {
  fresh = Stages.init [];
  buffer = λ c. c.buffer;
  set_buffer = λ b c. record c { buffer = b };
  on_empty = λ fd. rearm fd ∷ [];
  handle = handle_client host;
}

-- What the system answers before the loop.
pub record Setup : Type 0 where
  pub socket : Option ℕ
  pub bind_ok : Bool
  pub listen_ok : Bool
  pub epoll_create : Option ℕ
  pub add_ok : Bool

-- `main` up to the loop: the descriptor that it listens on, `none` where it returns -1.
abbrev pub add_listen : ℕ → Bool → Option ℕ × List Syscall
add_listen fd true = (some fd, epoll_ctl (epoll_ctl_add listen_events) (some fd) ∷ [])
add_listen fd false = (none, epoll_ctl (epoll_ctl_add listen_events) (some fd) ∷ close fd ∷ [])

abbrev pub make_epoll : ℕ → Option ℕ → Bool → Option ℕ × List Syscall
make_epoll fd none ok = (none, close fd ∷ [])
make_epoll fd (some epoll_fd) ok = add_listen fd ok

-- A socket that `bind` or `listen` refuses is left open.
abbrev pub bind_listen : ℕ → Setup → Option ℕ × List Syscall
bind_listen fd k =
    if k.bind_ok && k.listen_ok then make_epoll fd k.epoll_create k.add_ok else (none, [])

abbrev pub open_listen : Option ℕ → Setup → Option ℕ × List Syscall
open_listen none k = (none, [])
open_listen (some fd) k =
    let (listening, calls) = bind_listen fd k in (listening, set_nonblocking (some fd) ∷ calls)

-- Where `main` is after the answers of `epoll_wait` that are given: it has returned -1, or goes
-- round in the loop.
pub data Running (S E : Type 0) : Type 0 where
  returned_error : List Syscall → Running S E
  in_loop : Serving S E → List Syscall → Running S E

module _ {S E : Type 0} (stage : Stage S E) where
  abbrev pub loop_result : List Syscall → Handled S E → Option (Running S E)
  loop_result calls none = none
  loop_result calls (some (s, more)) = some (in_loop s (calls ++ more))

  abbrev pub serve_on :
      Option ℕ × List Syscall → List (Option (List Event)) → Serving S E → Option (Running S E)
  serve_on (none, calls) waits s = some (returned_error calls)
  serve_on (some listenfd, calls) waits s = loop_result calls (run_loop stage listenfd waits s)

  -- `main`, from `signal` on.
  unfoldable pub serve : Setup → List (Option (List Event)) → Serving S E → Option (Running S E)
  unfolding run_loop
  serve k waits s =
      let (listening, calls) = open_listen k.socket k in
      serve_on (listening, sigpipe_ignored ∷ calls) waits s

-- The three `main`; `users` before `main` are made by the constructors.
unfoldable pub first_main :
    Host → ℕ → Setup → List (Option (List Event)) → Option (Running Basic.ClientState (Unit {0}))
unfolding serve
first_main host garbage k waits =
    serve (first_stage host garbage) k waits
      (record { users = λ _. record { fd = 0; buffer = [] }; tasks = []; shared = tt })

abbrev pub new_client : {B : Type 0} → B → ClientState B
new_client no_data = record {
  fd = 0;
  buffer = [];
  check_state = check_state_requestline;
  checked_idx = pos 0;
  post_data = no_data;
  method = [];
  url = [];
  version = [];
  keep_alive = false;
  content_length = pos 0;
}

unfoldable pub second_main :
    Host → Setup → List (Option (List Event)) → Option (Running (ClientState (Unit {0})) (Unit {0}))
unfolding serve
second_main host k waits =
    serve (second_stage host) k waits
      (record { users = λ _. new_client tt; tasks = []; shared = tt })

-- The third server makes its pool first.
abbrev pub third_with :
    Host
    → Setup
    → List (Option (List Event))
    → Option MySqlPool
    → Option (Running (ClientState Bytes) MySqlPool)
third_with host k waits none = none
third_with host k waits (some pool) =
    serve (third_stage host) k waits
      (record { users = λ _. new_client []; tasks = []; shared = pool })

unfoldable pub third_main :
    Host
    → (ℕ → Attempt)
    → Setup
    → List (Option (List Event))
    → Option (Running (ClientState Bytes) MySqlPool)
unfolding serve get_instance
third_main host attempt k waits = third_with host k waits (get_instance attempt none)
