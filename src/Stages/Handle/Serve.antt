-- ===== src/Stages/Handle/Serve.antt =====
-- HTTP-Protocol: what a task of the third server makes of a whole request.
use cpp_web_server.Base.{
  ℕ, ◌≡◌, refl, sym, ap, ap₂, subst, ◌∙◌, Bool, false, ◌&&◌, ◌||◌, Option, none, some, List, [],
  ◌∷◌, ◌++◌, append-nil, append_assoc, take, if◌then◌else◌, arith,
}
use cpp_web_server.Kernel.{Syscall, send, writev}
use cpp_web_server.Text.{Bytes, text, same}
use cpp_web_server.Conn.{HttpConn, HttpCode, get_request}
use cpp_web_server.Conn
use cpp_web_server.Conn.Parse.Fields.{Request, first_line, write_fields, any_keeps}
use cpp_web_server.Conn.Parse.RoundTrip.{IsRequest, Awaits, past_get, parse_request-get}
use cpp_web_server.Conn.Reply.{Host}
use cpp_web_server.Conn.Reply.Framing.{IsFramed}
use cpp_web_server.Stages.{ClientState, init, Outcome, returned, thrown, out_of_fuel}
use cpp_web_server.Stages.Parse.{parse_http_request, body_substr}
use cpp_web_server.Stages.Parse.Lines.{to_conn, IsInRange}
use cpp_web_server.Stages.Parse.Same.{SameRun, parse_http_request-SameRun}
use cpp_web_server.Stages.Pool.{MySqlPool}
use cpp_web_server.Stages.Reply.{serve_file, settle}
use cpp_web_server.Stages.Reply.Framing.{
  sent, taken_by, taken_by-sent, asked_path, Gives, serve_file-IsFramed,
}
use cpp_web_server.Stages.Handle.{replied, respond, login_or_file, handle_client}
use cpp_web_server.Stages.Handle.Settles.{serve_file-seen}
use cpp_web_server.Stages.Watch.{Watch, unopened, armed, disarmed, seen, seen-append}

pub sent-append : (xs ys : List Syscall) → sent (xs ++ ys) ≡ sent xs ++ sent ys
sent-append [] ys = refl
sent-append (send fd s ∷ xs) ys = simp (sent-append xs ys, append_assoc)
sent-append (writev fd s (some t) ∷ xs) ys = simp (sent-append xs ys, append_assoc)
sent-append (writev fd s none ∷ xs) ys = simp (sent-append xs ys, append_assoc)
sent-append (_ ∷ xs) ys = sent-append xs ys

-- The client that the parser leaves, where the last server's parser returns.
pub record Left (c : ClientState Bytes) (code : HttpCode) (h : HttpConn) : Type 0 where
  pub left : ClientState Bytes
  pub parsed : parse_http_request body_substr c ≡ (returned code, left)
  pub alike : to_conn left ≡ h

pub SameRun-Left :
    (c : ClientState Bytes) (code : HttpCode) (h : HttpConn)
    → SameRun (parse_http_request body_substr c) (Conn.Parse.returned code, h)
    → Left c code h
SameRun-Left c code h s = go (parse_http_request body_substr c) refl s
  where
    go :
        (a : Outcome × ClientState Bytes)
        → parse_http_request body_substr c ≡ a
        → SameRun a (Conn.Parse.returned code, h)
        → Left c code h
    go (returned k, d) e (m, r, q) = record {
      left = d;
      parsed = e ∙ ap (λ x. (returned x, d)) q;
      alike = m;
    }
    go (thrown x, d) e s = elim s [ ]
    go (out_of_fuel, d) e s = elim s [ ]

pub sent-settle : (fd : ℕ) (c : ClientState Bytes) → sent (settle [] fd c).1 ≡ []
unfolding settle
sent-settle fd c = ground arith

pub settle-seen :
    (fd : ℕ) (c : ClientState Bytes) (w : Watch)
    → seen fd (settle [] fd c).1 w ≡ (if c.keep_alive then armed else unopened)
unfolding settle
settle-seen fd c w = ground arith

settle_buffer :
    (fd : ℕ) (c : ClientState Bytes)
    → (settle [] fd c).0.buffer ≡ (if c.keep_alive then [] else c.buffer)
unfolding settle init
settle_buffer fd c = ground arith

-- A request that is served: the calls hand the kernel one message with this body, of which goes out
-- what the socket has room for, and the client is armed for its next request, with an empty buffer, or
-- closed.
pub record Served (fd : ℕ) (keep : Bool) (body : Bytes) (c : ClientState Bytes) (p : MySqlPool)
    (o : Option (ClientState Bytes × MySqlPool × List Syscall)) : Type 0 where
  pub after : ClientState Bytes
  pub calls : List Syscall
  pub message : Bytes
  pub handled : o ≡ some (after, p, calls)
  pub framed : IsFramed message body
  pub taken : (room : ℕ) → taken_by room calls ≡ take room message
  pub settled : seen fd calls disarmed ≡ (if keep then armed else unopened)
  pub emptied : after.buffer ≡ (if keep then [] else c.buffer)

-- The end of a task whose reply is made.
replied-Served :
    (fd : ℕ) (keep : Bool) (body : Bytes) (c d : ClientState Bytes) (p : MySqlPool)
    (calls : List Syscall)
    → d.keep_alive ≡ keep
    → d.buffer ≡ c.buffer
    → IsFramed (sent calls) body
    → seen fd calls disarmed ≡ disarmed
    → Served fd keep body c p (replied [] fd (some (d, p, calls)))
replied-Served fd keep body c d p calls k b f q = record {
  after = (settle [] fd d).0;
  calls = calls ++ (settle [] fd d).1;
  message = sent (calls ++ (settle [] fd d).1);
  handled = refl;
  taken = λ room. taken_by-sent room (calls ++ (settle [] fd d).1);
  framed =
      subst (λ s. IsFramed s body)
        (sym (
          sent-append calls (settle [] fd d).1
          ∙ ap (λ s. sent calls ++ s) (sent-settle fd d)
          ∙ append-nil (sent calls)))
        f;
  settled =
      seen-append fd calls (settle [] fd d).1 disarmed
      ∙ settle-seen fd d _
      ∙ ap (λ x. if x then armed else unopened) k;
  emptied = settle_buffer fd d ∙ ap₂ (λ x y. if x then [] else y) k b;
}

-- A request without a body that is not a POST of /login, on a client of the third server that is in
-- range and waits for one, where its path names no file, or a file that is mapped with the size that
-- `stat` gives: the task makes one framed message, with the page for a missing file or the file as its
-- body, and of it goes out what the socket has room for, the whole where there is room for it, the
-- rest being lost; and the client is then armed for the next request where it asked to be kept, and
-- closed where it did not. The pool is left as it was.
pub handle_client-Served :
    (host : Host) (fd : ℕ) (r : Request) (c : ClientState Bytes) (p : MySqlPool) (rest body : Bytes)
    → IsRequest r
    → IsInRange c
    → Awaits (to_conn c) (first_line r ++ 13 ∷ 10 ∷ write_fields r.fields (13 ∷ 10 ∷ rest))
    → (same r.method (text "POST") && same r.url (text "/login")) ≡ false
    → Gives host (asked_path r.url) body
    → Served fd (any_keeps r.fields || c.keep_alive) body c p (handle_client host fd c p)
unfolding handle_client
handle_client-Served host fd r c p rest body i range waits no_login gives =
    subst (Served fd _ body c p)
      (sym (
        ap (λ a. respond [] fd (login_or_file host fd) a.0 a.1 p) l.parsed
        ∙ ap (replied [] fd) as_file))
      (replied-Served fd _ body c (serve_file host fd l.left).0 p (serve_file host fd l.left).1
        (unfold serve_file in ap (λ h. h.m_keep_alive) l.alike)
        (unfold serve_file in ap (λ h. h.m_read_buf) l.alike)
        (serve_file-IsFramed host fd l.left body
          (subst (λ u. Gives host (asked_path u) body) (sym url_read) gives))
        (serve_file-seen host fd l.left fd disarmed))
  where
    l : Left c get_request (past_get r (to_conn c))
    l = SameRun-Left c get_request (past_get r (to_conn c)) (
        subst (SameRun (parse_http_request body_substr c))
          (parse_request-get r (to_conn c) rest i waits).0 (parse_http_request-SameRun c range).0)

    url_read : l.left.url ≡ r.url
    url_read = ap (λ h. h.m_url) l.alike

    as_file :
        login_or_file host fd l.left p
        ≡ some ((serve_file host fd l.left).0, p, (serve_file host fd l.left).1)
    as_file =
        let method_read : l.left.method ≡ r.method = ap (λ h. h.m_method) l.alike in
        rw (method_read, url_read, no_login)
