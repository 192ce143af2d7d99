-- ===== src/Stages/Handle.antt =====
-- HTTP-Protocol: `handle_client` of the second and the third server, the task of a worker. `none`
-- stands for a query that overruns its buffer. An exception ends the task where it is thrown: the
-- `packaged_task` keeps it.
pub mod Settles
pub mod Range
pub mod Serve
pub mod Login
use cpp_web_server.Base.{
  ℕ, Bool, true, false, ◌&&◌, Option, none, some, List, [], ◌∷◌, ◌++◌, if◌then◌else◌,
}
use cpp_web_server.Kernel.{Syscall, send, close}
use cpp_web_server.Text.{Bytes, text, same}
use cpp_web_server.Conn.{no_request, get_request, bad_request, internal_error}
use cpp_web_server.Conn.Reply.{Host}
use cpp_web_server.Stages.{ClientState, Outcome, returned, thrown, out_of_fuel}
use cpp_web_server.Stages.Parse.{parse_http_request, body_substr}
use cpp_web_server.Stages.Second.{SecondClient, parse_second}
use cpp_web_server.Stages.Pool.{MySqlPool}
use cpp_web_server.Stages.Reply.{
  rearm, bad_request_reply, serve_file, settle, parse_post_data, check_login, send_login_response,
}

module _ {B : Type 0} {E : Type 0} (no_data : B) (fd : ℕ) where
  -- The end of the branch of GET_REQUEST, behind the reply.
  abbrev pub replied :
      Option (ClientState B × E × List Syscall) → Option (ClientState B × E × List Syscall)
  replied none = none
  replied (some (c, e, calls)) = let (c', more) = settle no_data fd c in some (c', e, calls ++ more)

  -- What the task does after the parser, by its result.
  abbrev pub respond :
      (ClientState B → E → Option (ClientState B × E × List Syscall))
      → Outcome
      → ClientState B
      → E
      → Option (ClientState B × E × List Syscall)
  respond reply (returned no_request) c e = some (c, e, rearm fd ∷ [])
  respond reply (returned bad_request) c e = some (c, e, send fd bad_request_reply ∷ close fd ∷ [])
  respond reply (returned get_request) c e = replied (reply c e)
  respond reply (returned internal_error) c e = some (c, e, [])
  respond reply (thrown x) c e = some (c, e, [])
  respond reply out_of_fuel c e = some (c, e, [])

-- The second server, which keeps no body and has no pool.
abbrev pub file_reply :
    Host → ℕ → SecondClient → Unit {0} → Option (SecondClient × Unit {0} × List Syscall)
file_reply host fd c e = let (c', calls) = serve_file host fd c in some (c', e, calls)

unfoldable pub handle_second :
    Host → ℕ → SecondClient → Unit {0} → Option (SecondClient × Unit {0} × List Syscall)
handle_second host fd client e =
    let (ret, c) = parse_second client in respond tt fd (file_reply host fd) ret c e

-- The third server.
abbrev pub answer_login :
    ℕ
    → ClientState Bytes
    → Option (Bool × MySqlPool)
    → Option (ClientState Bytes × MySqlPool × List Syscall)
answer_login fd c none = none
answer_login fd c (some (success, p)) = some (c, p, send_login_response fd success ∷ [])

abbrev pub if_login : Host → Option (Bytes × Bytes) → MySqlPool → Option (Bool × MySqlPool)
if_login host none p = some (false, p)
if_login host (some (user, password)) p = check_login host user password p

abbrev pub login_or_file :
    Host → ℕ → ClientState Bytes → MySqlPool → Option (ClientState Bytes × MySqlPool × List Syscall)
login_or_file host fd c p =
    let (c', calls) = serve_file host fd c in
    if same c.method (text "POST") && same c.url (text "/login")
    then answer_login fd c (if_login host (parse_post_data c) p)
    else some (c', p, calls)

unfoldable pub handle_client :
    Host → ℕ → ClientState Bytes → MySqlPool → Option (ClientState Bytes × MySqlPool × List Syscall)
handle_client host fd client p =
    let (ret, c) = parse_http_request body_substr client in
    respond [] fd (login_or_file host fd) ret c p
