-- ===== src/Stages/Handle/Range.antt =====
-- HTTP-Protocol: a task of the third server leaves its client in range.
use cpp_web_server.Base.{
  ℕ, ◌≡◌, subst, ◌&&◌, Bool, true, false, Option, none, some, List, [], ◌∷◌, if◌then◌else◌,
  Bool-cases, inl, inr, arith,
}
use cpp_web_server.Kernel.{Syscall}
use cpp_web_server.Text.{Bytes, text, same}
use cpp_web_server.Conn.{no_request, get_request, bad_request, internal_error}
use cpp_web_server.Conn.Reply.{Host}
use cpp_web_server.Stages.{ClientState, init, Outcome, returned, thrown, out_of_fuel}
use cpp_web_server.Stages.Parse.{parse_http_request, body_substr}
use cpp_web_server.Stages.Parse.Lines.{IsInRange}
use cpp_web_server.Stages.Parse.Same.{parse_http_request-IsInRange}
use cpp_web_server.Stages.Pool.{MySqlPool}
use cpp_web_server.Stages.Reply.{rearm, hang_up, serve_file, settle, parse_post_data}
use cpp_web_server.Stages.Handle.{
  replied, respond, answer_login, if_login, login_or_file, handle_client,
}

abbrev AllRange : Option (ClientState Bytes × MySqlPool × List Syscall) → Type 0
AllRange none = Unit {0}
AllRange (some (c, p, calls)) = IsInRange c

pub init-IsInRange : (fd : ℕ) (c : ClientState Bytes) → IsInRange (init [] fd c)
unfolding init
init-IsInRange fd c = ground arith

settle-IsInRange : (fd : ℕ) (c : ClientState Bytes) → IsInRange c → IsInRange (settle [] fd c).0
unfolding settle
settle-IsInRange fd c r = go c.keep_alive
  where
    go :
        (b : Bool)
        → IsInRange
            (if◌then◌else◌ {A = ClientState Bytes × List Syscall} b
              (init [] fd c, rearm fd ∷ [])
              (c, hang_up fd)).0
    go true = init-IsInRange fd c
    go false = r

serve_file-IsInRange :
    (host : Host) (fd : ℕ) (c : ClientState Bytes)
    → IsInRange c
    → IsInRange (serve_file host fd c).0
unfolding serve_file
serve_file-IsInRange host fd c r = record {
  short = r.short;
  within = r.within;
  int_length = r.int_length;
}

login_or_file-AllRange :
    (host : Host) (fd : ℕ) (c : ClientState Bytes) (p : MySqlPool)
    → IsInRange c
    → AllRange (login_or_file host fd c p)
login_or_file-AllRange host fd c p r =
    elim (Bool-cases (same c.method (text "POST") && same c.url (text "/login"))) [
      | inl e ↦ rw e (go (if_login host (parse_post_data c) p))
      | inr e ↦ rw e (serve_file-IsInRange host fd c r)
    ]
  where
    go : (o : Option (Bool × MySqlPool)) → AllRange (answer_login fd c o)
    go none = tt
    go (some (success, p')) = r

replied-AllRange :
    (fd : ℕ) (o : Option (ClientState Bytes × MySqlPool × List Syscall))
    → AllRange o
    → AllRange (replied [] fd o)
replied-AllRange fd none r = tt
replied-AllRange fd (some (c, p, calls)) r = settle-IsInRange fd c r

respond-AllRange :
    (host : Host) (fd : ℕ) (ret : Outcome) (c : ClientState Bytes) (p : MySqlPool)
    → IsInRange c
    → AllRange (respond [] fd (login_or_file host fd) ret c p)
respond-AllRange host fd (returned no_request) c p r = r
respond-AllRange host fd (returned bad_request) c p r = r
respond-AllRange host fd (returned get_request) c p r =
    replied-AllRange fd (login_or_file host fd c p) (login_or_file-AllRange host fd c p r)
respond-AllRange host fd (returned internal_error) c p r = r
respond-AllRange host fd (thrown x) c p r = r
respond-AllRange host fd out_of_fuel c p r = r

pub handle_client-IsInRange :
    (host : Host) (fd : ℕ) (c d : ClientState Bytes) (p q : MySqlPool) (calls : List Syscall)
    → IsInRange c
    → handle_client host fd c p ≡ some (d, q, calls)
    → IsInRange d
unfolding handle_client
handle_client-IsInRange host fd c d p q calls r e = subst AllRange e (
    respond-AllRange host fd (parse_http_request body_substr c).0
      (parse_http_request body_substr c).1 p (parse_http_request-IsInRange c r))
