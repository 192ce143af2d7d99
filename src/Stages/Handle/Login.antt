-- ===== src/Stages/Handle/Login.antt =====
-- HTTP-Protocol: what a task of the third server makes of a whole login.
use cpp_web_server.Base.{
  ℕ, ◌^◌, ◌<◌, ◌≤◌, ◌≡◌, ◌≢◌, refl, sym, ap, ap₂, subst, ◌∙◌, Bool, true, ◌&&◌, ◌||◌, Option, some,
  List, [], ◌∷◌, ◌++◌, append-nil, length, if◌then◌else◌, Perm,
}
use cpp_web_server.Kernel.{Syscall}
use cpp_web_server.Text.{Bytes, text, same}
use cpp_web_server.Text.Find.{Lacks}
use cpp_web_server.Text.Number.{int_max}
use cpp_web_server.MySql
use cpp_web_server.Conn.{HttpConn, get_request}
use cpp_web_server.Conn.Parse.Fields.{Request, first_line, write_fields, any_keeps}
use cpp_web_server.Conn.Parse.RoundTrip.{IsRequest, Awaits}
use cpp_web_server.Conn.Parse.Body.{length_line, past_post, parse_request-post}
use cpp_web_server.Conn.Reply.{
  Host, login_html, check_login as last_check_login, parse_post_data as last_parse_post_data,
}
use cpp_web_server.Conn.Reply.Login.{login_form, parse_post_data-login_form}
use cpp_web_server.Stages.{ClientState}
use cpp_web_server.Stages.Parse.{parse_http_request, body_substr}
use cpp_web_server.Stages.Parse.Lines.{to_conn, IsInRange}
use cpp_web_server.Stages.Parse.Same.{SameRun, parse_http_request-SameRun}
use cpp_web_server.Stages.Pool.{MySqlPool}
use cpp_web_server.Stages.Reply.{
  settle, parse_post_data, check_login, login_header, send_login_response,
}
use cpp_web_server.Stages.Reply.Framing.{sent}
use cpp_web_server.Stages.Reply.Login.{
  whole_sql, to_pool, of_pool, check_login-of_pool, check_login-perm,
}
use cpp_web_server.Stages.Handle.{replied, respond, answer_login, login_or_file, handle_client}
use cpp_web_server.Stages.Handle.Serve.{Left, SameRun-Left, sent-settle, settle-seen}
use cpp_web_server.Stages.Watch.{unopened, armed, disarmed, seen}

-- A login that is answered: the page of its result is sent, the pool holds the connections that it
-- held, and the client is armed again or closed.
pub record LoggedIn (fd : ℕ) (keep success : Bool) (p : MySqlPool)
    (o : Option (ClientState Bytes × MySqlPool × List Syscall)) : Type 0 where
  pub after : ClientState Bytes
  pub pool : MySqlPool
  pub calls : List Syscall
  pub handled : o ≡ some (after, pool, calls)
  pub page : sent calls ≡ login_header (login_html success) ++ login_html success
  pub given_back : Perm pool.pool p.pool
  pub settled : seen fd calls disarmed ≡ (if keep then armed else unopened)

replied-LoggedIn :
    (fd : ℕ) (keep success : Bool) (p q : MySqlPool) (d : ClientState Bytes)
    → d.keep_alive ≡ keep
    → Perm q.pool p.pool
    → LoggedIn fd keep success p (replied [] fd (answer_login fd d (some (success, q))))
unfolding send_login_response
replied-LoggedIn fd keep success p q d k g = record {
  after = (settle [] fd d).0;
  pool = q;
  calls = send_login_response fd success ∷ (settle [] fd d).1;
  handled = refl;
  page =
      ap (λ s. (login_header (login_html success) ++ login_html success) ++ s) (sent-settle fd d)
      ∙ append-nil (login_header (login_html success) ++ login_html success);
  given_back = g;
  settled = settle-seen fd d disarmed ∙ ap (λ x. if x then armed else unopened) k;
}

form_not_empty : (user password : Bytes) → login_form user password ≢ []
unfolding text
form_not_empty user password e = cc

-- A login form, posted to a client of the third server that is in range and waits for a request, is
-- answered with the page of the result that the last server's login has, on the condition that the
-- user name holds no ampersand, the form no carriage return, and the query fits its buffer. The
-- connection is given back, and the client is armed again where it asked to be kept, and closed where
-- it did not.
pub handle_client-LoggedIn :
    (host : Host) (fd : ℕ) (r : Request) (c : ClientState Bytes) (p : MySqlPool)
    (user password : Bytes)
    → IsRequest r
    → r.method ≡ text "POST"
    → r.url ≡ text "/login"
    → IsInRange c
    → Lacks 38 user
    → Lacks 13 (login_form user password)
    → length (login_form user password) ≤ int_max
    → length user < 2 ^ 64
    → length (whole_sql user password) < 1024
    → Awaits (to_conn c) (
        first_line r
        ++ 13
          ∷ 10
          ∷ write_fields r.fields (
              length_line (length (login_form user password))
              ++ 13 ∷ 10 ∷ 13 ∷ 10 ∷ login_form user password))
    → LoggedIn fd
        (any_keeps r.fields || c.keep_alive)
        (last_check_login host [] user password (to_pool p)).0
        p
        (handle_client host fd c p)
unfolding handle_client
handle_client-LoggedIn host fd r c p user password i m u range amp one small size fits waits =
    subst (LoggedIn fd _ _ p)
      (sym (
        ap (λ a. respond [] fd (login_or_file host fd) a.0 a.1 p) l.parsed
        ∙ ap (replied [] fd) as_login))
      (replied-LoggedIn fd _ _ p (of_pool answer).1 l.left (ap (λ h. h.m_keep_alive) l.alike)
        (check_login-perm host user password p logged))
  where
    answer : Bool × MySql.MySqlPool
    answer = last_check_login host [] user password (to_pool p)

    form : Bytes
    form = login_form user password

    past : HttpConn
    past = past_post r form (to_conn c)

    l : Left c get_request past
    l = SameRun-Left c get_request past (
        subst (SameRun (parse_http_request body_substr c))
          (parse_request-post r form (to_conn c) i (form_not_empty user password) small one waits)
          (parse_http_request-SameRun c range).0)

    logged : check_login host user password p ≡ some (of_pool answer)
    logged = check_login-of_pool host user password p fits

    read_form : parse_post_data l.left ≡ some (user, password)
    read_form =
        unfold parse_post_data in
        unfold last_parse_post_data in
        parse_post_data-login_form user password (to_conn l.left) amp size
          (ap (λ h. h.m_post_data) l.alike)

    posted : (same l.left.method (text "POST") && same l.left.url (text "/login")) ≡ true
    posted =
        unfold same text in
        ap₂ (λ a b. same a (text "POST") && same b (text "/login"))
          (ap (λ h. h.m_method) l.alike ∙ m) (ap (λ h. h.m_url) l.alike ∙ u)

    as_login : login_or_file host fd l.left p ≡ answer_login fd l.left (some (of_pool answer))
    as_login = rw (posted, read_form, logged) refl
