-- ===== src/Conn/Process/Answers.antt =====
-- WebServer_Proj/HttpConn: what a worker's task leaves for the main loop.
use cpp_web_server.Base.{
  ℕ, ◌+◌, ◌==◌, ◌⊎◌, ◌≤◌, ◌≡◌, ◌≢◌, refl, sym, ap, subst, ◌∙◌, Bool, true, false, ◌&&◌, Option,
  none, some, List, [], ◌∷◌, ◌++◌, length, length-append, take, take_all, Bool-cases, inl, inr,
  arith,
}
use cpp_web_server.Kernel.{Syscall, read_events, write_events}
use cpp_web_server.Text.{Bytes, text, same, c_str}
use cpp_web_server.Text.Find.{Lacks}
use cpp_web_server.MySql.{MySqlPool}
use cpp_web_server.Conn.{
  Mapping, nullptr, map_failed, HttpConn, HttpCode, no_request, get_request, bad_request,
  internal_error, mapped,
}
use cpp_web_server.Conn.Parse.{Outcome, returned, thrown, out_of_fuel, parse_request}
use cpp_web_server.Conn.Parse.Total.{parse_request-Parsed}
use cpp_web_server.Conn.Parse.Fields.{write_fields}
use cpp_web_server.Conn.Reply.{
  Host, one_vector, two_vectors, error_page, error_body, login_page, login_html, file_head,
  file_path, default_url, send_error, send_login_response, serve_path, serve_static_file,
  make_response, login_result, parse_post_data,
}
use cpp_web_server.Conn.Reply.Framing.{
  IsFramed, error_page-IsFramed, login_page-IsFramed, file_head-IsFramed,
}
use cpp_web_server.Conn.Transfer.{gather}
use cpp_web_server.Conn.Transfer.Vectors.{IsSending}
use cpp_web_server.Conn.Process.{rearm, respond, process}

-- The calls that each outcome of the parser asks for.
abbrev pub rearms : Outcome → HttpConn → List Syscall
rearms (returned no_request) c = rearm read_events c ∷ []
rearms (returned get_request) c = rearm write_events c ∷ []
rearms (returned bad_request) c = rearm write_events c ∷ []
rearms (returned internal_error) c = rearm write_events c ∷ []
rearms (thrown e) c = []
rearms out_of_fuel c = []

make_response-fd :
    (host : Host) (arrivals : List ℕ) (c : HttpConn) (pool : MySqlPool)
    → (make_response host arrivals c pool).0.m_sockfd ≡ c.m_sockfd
unfolding make_response send_login_response serve_static_file send_error
make_response-fd host arrivals c pool = ground arith

respond-rearms :
    (host : Host) (arrivals : List ℕ) (r : Outcome) (c : HttpConn) (pool : MySqlPool)
    → (respond host arrivals r c pool).2 ≡ rearms r c
unfolding send_error
respond-rearms host arrivals (returned no_request) c pool = refl
respond-rearms host arrivals (returned get_request) c pool =
    ground (arith, make_response-fd host arrivals c pool)
respond-rearms host arrivals (returned bad_request) c pool = refl
respond-rearms host arrivals (returned internal_error) c pool =
    ground (arith, make_response-fd host arrivals c pool)
respond-rearms host arrivals (thrown e) c pool = refl
respond-rearms host arrivals out_of_fuel c pool = refl

rearms-fd : (r : Outcome) (c d : HttpConn) → d.m_sockfd ≡ c.m_sockfd → rearms r d ≡ rearms r c
rearms-fd (returned no_request) c d e = rw e
rearms-fd (returned get_request) c d e = rw e
rearms-fd (returned bad_request) c d e = rw e
rearms-fd (returned internal_error) c d e = rw e
rearms-fd (thrown x) c d e = refl
rearms-fd out_of_fuel c d e = refl

-- A task on a connection whose position lies within its buffer ends, and makes exactly one call: it
-- registers the connection's descriptor again, for reading where the parser waits for more, and for
-- writing where it has an answer. Only where `std::stoi` throws is there no call, so that the
-- one-shot registration is not renewed.
pub process-rearms :
    (host : Host) (arrivals : List ℕ) (c : HttpConn) (pool : MySqlPool)
    → c.m_checked_idx ≤ length c.m_read_buf
    → ((process host arrivals c pool).2 ≡ rearms (parse_request c).0 c)
      × ((parse_request c).0 ≢ out_of_fuel)
unfolding process
process-rearms host arrivals c pool h =
    let p = parse_request-Parsed c h in
    (
      respond-rearms host arrivals (parse_request c).0 (parse_request c).1 pool
          ∙ rearms-fd (parse_request c).0 c (parse_request c).1 p.kept.same_fd,
      p.ends,
    )

-- What `write` needs: there is something to send, the vectors hold it, and it is one HTTP message.
pub record IsReply (c : HttpConn) : Type 0 where
  pub sending : IsSending c
  pub some_left : c.m_bytes_to_send ≢ 0
  pub body : Bytes
  pub framed : IsFramed (gather c) body

write_fields-longer :
    (head : List Bytes) (rest : Bytes) → length rest ≤ length (write_fields head rest)
write_fields-longer [] rest = omega arith
write_fields-longer (l ∷ ls) rest =
    omega (arith, write_fields-longer ls rest, length-append l (13 ∷ 10 ∷ write_fields ls rest))

pub nonempty_page : (r body : Bytes) → IsFramed r body → length r ≢ 0
nonempty_page r body f e =
    omega (arith, e, ap length f.written, write_fields-longer f.head (13 ∷ 10 ∷ body))

pub one_vector-IsReply :
    (c : HttpConn) (body : Bytes) → IsFramed c.m_write_buf body → IsReply (one_vector c)
one_vector-IsReply c body f = record {
  sending = record {
    covers = ap length (take_all c.m_write_buf);
    counted = omega (arith, ap length (take_all c.m_write_buf));
  };
  some_left = nonempty_page c.m_write_buf body f;
  body = body;
  framed = subst (λ r. IsFramed r body) (sym (take_all c.m_write_buf)) f;
}

pub gather-two_vectors :
    (c : HttpConn) (s : Bytes) (size : ℕ)
    → size ≡ length s
    → gather (two_vectors (mapped s) size c) ≡ c.m_write_buf ++ s
gather-two_vectors c s size e = rw (take_all c.m_write_buf, all_file) refl
  where
    all_file : take size s ≡ s
    all_file = rw e (take_all s)

pub two_vectors-IsReply :
    (c : HttpConn) (s body : Bytes) (size : ℕ)
    → size ≡ length s
    → IsFramed (c.m_write_buf ++ s) body
    → IsReply (two_vectors (mapped s) size c)
two_vectors-IsReply c s body size e f = record {
  sending = record {
    covers = (ap length all_head, ap length all_file ∙ sym e);
    counted = omega (arith, e, ap length gathered, length-append c.m_write_buf s);
  };
  some_left =
      λ z. nonempty_page (c.m_write_buf ++ s) body f (length-append c.m_write_buf s ∙ rw e at z);
  body = body;
  framed = subst (λ r. IsFramed r body) (sym gathered) f;
}
  where
    all_head : take (length c.m_write_buf) c.m_write_buf ≡ c.m_write_buf
    all_head = take_all c.m_write_buf

    all_file : take size s ≡ s
    all_file = rw e (take_all s)

    gathered : gather (two_vectors (mapped s) size c) ≡ c.m_write_buf ++ s
    gathered = gather-two_vectors c s size e

-- The connection's file has a size, and is not mapped with it: the vectors then promise as many bytes
-- of the mapping, whatever it is.
pub record Unmapped (host : Host) (c : HttpConn) : Type 0 where
  pub size : ℕ
  pub found : host.stat (c_str (file_path c.m_url)) ≡ some size
  pub not_whole :
      (s : Bytes) → host.open_mmap (c_str (file_path c.m_url)) ≡ mapped s → size ≢ length s
  pub mapping : c.m_mmap_addr ≡ host.open_mmap (c_str (file_path c.m_url))
  pub promised : c.m_bytes_to_send ≡ length c.m_write_buf + size

pub send_error-IsReply :
    (code : ℕ) (msg : Bytes) (c : HttpConn) → Lacks 13 msg → IsReply (send_error code msg c)
unfolding send_error
send_error-IsReply code msg c l =
    one_vector-IsReply (record c { m_write_buf = error_page code msg; m_keep_alive = false })
      (error_body code msg) (error_page-IsFramed code msg l)

serve_path-Answered :
    (host : Host) (o : Option ℕ) (c : HttpConn)
    → host.stat (c_str (file_path c.m_url)) ≡ o
    → IsReply (serve_path host o c) ⊎ Unmapped host (serve_path host o c)
serve_path-Answered host none c e =
    inl (send_error-IsReply 404 (text "Not Found") c (unfold text in omega arith))
serve_path-Answered host (some size) c e = go (host.open_mmap path) refl
  where
    path : Bytes
    path = c_str (file_path c.m_url)

    headed : HttpConn
    headed = record c { m_write_buf = file_head c.m_url c.m_keep_alive size }

    unmapped :
        (m : Mapping)
        → host.open_mmap path ≡ m
        → ((s : Bytes) → m ≡ mapped s → size ≢ length s)
        → Unmapped host (two_vectors m size headed)
    unmapped m q n = record {
      size = size;
      found = e;
      not_whole = λ s r. n s (sym q ∙ r);
      mapping = sym q;
      promised = refl;
    }

    whole : (s : Bytes) → size ≡ length s → IsReply (two_vectors (mapped s) size headed)
    whole s f =
        two_vectors-IsReply headed s s size f (rw f (file_head-IsFramed c.m_url c.m_keep_alive s))

    go :
        (m : Mapping)
        → host.open_mmap path ≡ m
        → IsReply (two_vectors m size headed) ⊎ Unmapped host (two_vectors m size headed)
    go nullptr q = inr (unmapped nullptr q (λ s r. absurd (ground arith)))
    go map_failed q = inr (unmapped map_failed q (λ s r. absurd (ground arith)))
    go (mapped s) q = elim (Bool-cases (size == length s)) [
      | inl f ↦ inl (whole s (ground (arith, f)))
      | inr f ↦ inr (
          unmapped (mapped s) q (λ t r u.
            let same : s ≡ t = ground (arith, r) in absurd (ground (arith, f, ap length same, u))))
    ]

-- A connection with the login page in its write buffer.
abbrev login_answer : Bool → HttpConn → HttpConn
login_answer success c = record c {
  m_write_buf = login_page (login_html success) true;
  m_keep_alive = true;
}

make_response-Answered :
    (host : Host) (arrivals : List ℕ) (c : HttpConn) (pool : MySqlPool)
    → IsReply (make_response host arrivals c pool).0
      ⊎ Unmapped host (make_response host arrivals c pool).0
unfolding make_response send_login_response serve_static_file
make_response-Answered host arrivals c pool =
    elim (Bool-cases (same c.m_method (text "POST") && same c.m_url (text "/login"))) [
      | inl login ↦ rw login (
          inl (
            one_vector-IsReply
              (login_answer (login_result host arrivals (parse_post_data c) pool).0 c) _
              (login_page-IsFramed
                (login_html (login_result host arrivals (parse_post_data c) pool).0) true)))
      | inr file ↦
          rw file (serve_path-Answered host _ (record c { m_url = default_url c.m_url }) refl)
    ]

-- Every task whose parse gives a code other than NO_REQUEST leaves a reply for `write`: something to
-- send, vectors and counters that agree on it, and in the vectors one HTTP message whose Content-Length
-- line gives the length of its body. The one exception is a file that `stat` finds and that is not
-- mapped with the size that `stat` gives, as a directory, an empty file, or one that may not be read:
-- the vectors then promise that many bytes of a mapping that does not hold them.
pub process-Answered :
    (host : Host) (arrivals : List ℕ) (c : HttpConn) (pool : MySqlPool) {code : HttpCode}
    → (parse_request c).0 ≡ returned code
    → code ≢ no_request
    → IsReply (process host arrivals c pool).0 ⊎ Unmapped host (process host arrivals c pool).0
unfolding process
process-Answered host arrivals c pool {code} e n = rw e (go code n)
  where
    bad_line : Lacks 13 (text "Bad Request")
    bad_line = unfold text in omega arith

    go :
        (code : HttpCode)
        → code ≢ no_request
        → IsReply (respond host arrivals (returned code) (parse_request c).1 pool).0
          ⊎ Unmapped host (respond host arrivals (returned code) (parse_request c).1 pool).0
    go no_request n = absurd (n refl)
    go get_request n = make_response-Answered host arrivals (parse_request c).1 pool
    go bad_request n =
        inl (send_error-IsReply 400 (text "Bad Request") (parse_request c).1 bad_line)
    go internal_error n = make_response-Answered host arrivals (parse_request c).1 pool
