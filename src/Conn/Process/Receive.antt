-- ===== src/Conn/Process/Receive.antt =====
-- WebServer_Proj/HttpConn: a request as it is written, and as `read` hands it to the parser.
use cpp_web_server.Base.{
  ◌≡◌, ◌≢◌, refl, sym, ap, ◌∙◌, true, false, some, [], ◌∷◌, ◌++◌, length, drop, arith,
}
use cpp_web_server.Text.{Bytes, c_str}
use cpp_web_server.Conn.{HttpConn, mapped, check_state_requestline}
use cpp_web_server.Conn.Parse.Fields.{Request, first_line, write_fields, any_keeps}
use cpp_web_server.Conn.Parse.RoundTrip.{IsRequest, Awaits}
use cpp_web_server.Conn.Reply.{Host, file_head, file_path, default_url}
use cpp_web_server.Conn.Transfer.{Arrival, recv_would_block, received, read, read_result}

-- A connection as `init` and `reset` leave it.
pub record IsFresh (c : HttpConn) : Type 0 where
  pub no_bytes : c.m_read_buf ≡ []
  pub at_front : c.m_checked_idx ≡ 0
  pub at_start : c.m_check_state ≡ check_state_requestline
  pub no_content : c.m_content_length ≡ 0
  pub not_kept : c.m_keep_alive ≡ false

-- How a request without a body is written.
abbrev pub write_request : Request → Bytes
write_request r = first_line r ++ 13 ∷ 10 ∷ write_fields r.fields (13 ∷ 10 ∷ [])

-- The file that a request names, as the host has it.
pub record Serves (host : Host) (r : Request) (s : Bytes) : Type 0 where
  pub found : host.stat (c_str (file_path (default_url r.url))) ≡ some (length s)
  pub opened : host.open_mmap (c_str (file_path (default_url r.url))) ≡ mapped s

-- The reply to it.
abbrev pub file_reply : Request → Bytes → Bytes
file_reply r s = file_head (default_url r.url) (any_keeps r.fields) (length s) ++ s

pub read-Awaits :
    (r : Request) (a : Arrival) (c : HttpConn)
    → IsFresh c
    → received a.chunks ≡ write_request r
    → Awaits (read a c).1 (write_request r)
unfolding read
read-Awaits r a c f e = record {
  unread = record {
    at =
        ap (λ n. drop n (c.m_read_buf ++ received a.chunks)) f.at_front
        ∙ ap (λ b. b ++ received a.chunks) f.no_bytes
        ∙ e;
    within = omega (arith, f.at_front);
  };
  at_start = f.at_start;
  no_content = f.no_content;
}

some_bytes : (b : Bytes) → b ≢ [] → read_result recv_would_block b ≡ true
some_bytes [] ne = absurd (ne refl)
some_bytes (x ∷ xs) ne = refl

some_request : (r : Request) → IsRequest r → write_request r ≢ []
some_request r i = go r.method i.has_method
  where
    go :
        (m : Bytes)
        → m ≢ []
        → (m ++ 32 ∷ (r.url ++ 32 ∷ r.version)) ++ 13 ∷ 10 ∷ write_fields r.fields (13 ∷ 10 ∷ [])
          ≢ []
    go [] ne e = ne refl
    go (x ∷ xs) ne e = cc

pub read-some :
    (r : Request) (a : Arrival) (c : HttpConn)
    → IsFresh c
    → IsRequest r
    → a.stop ≡ recv_would_block
    → received a.chunks ≡ write_request r
    → (read a c).0 ≡ true
unfolding read
read-some r a c f i w e =
    ap (λ t. read_result t (c.m_read_buf ++ received a.chunks)) w
    ∙ some_bytes _
        (λ z. some_request r i (sym (ap (λ b. b ++ received a.chunks) f.no_bytes ∙ e) ∙ z))
