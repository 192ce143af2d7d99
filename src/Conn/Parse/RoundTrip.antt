-- ===== src/Conn/Parse/RoundTrip.antt =====
-- WebServer_Proj/HttpConn: `parse_request` reads back a request that is written as HTTP writes it.
use cpp_web_server.Base.{◌≡◌, ◌≢◌, refl, ap, ◌∙◌, ◌||◌, [], ◌∷◌, ◌++◌, arith}
use cpp_web_server.Text.{is_space, Bytes}
use cpp_web_server.Text.Find.{Lacks, Lacks-append}
use cpp_web_server.Text.Words.{Solid}
use cpp_web_server.Conn.{HttpConn, check_state_requestline, check_state_header, get_request}
use cpp_web_server.Conn.Parse.{
  again, returns, check_line, parse_round, parse_go, parse_request, returned,
}
use cpp_web_server.Conn.Parse.Total.{parse_request_lem}
use cpp_web_server.Conn.Parse.Unread.{
  Unread, passed, passed-Unread, parse_round_line, parse_request_line,
}
use cpp_web_server.Conn.Parse.Fields.{
  Request, first_line, write_fields, request_line_words, AllFields, any_keeps, past_fields,
  past_fields-Unread, parse_request_fields,
}

-- The three words of the first line hold no white space, and the lines fit the format.
pub record IsRequest (r : Request) : Type 0 where
  pub has_method : r.method ≢ []
  pub has_url : r.url ≢ []
  pub has_version : r.version ≢ []
  pub solid_method : Solid r.method
  pub solid_url : Solid r.url
  pub solid_version : Solid r.version
  pub good_fields : AllFields r.fields

Solid-Lacks : (s : Bytes) → Solid s → Lacks 13 s
Solid-Lacks [] h = tt
Solid-Lacks (x ∷ xs) h = (unfold is_space in ground arith, Solid-Lacks xs h.1)

first_line-Lacks : (r : Request) → IsRequest r → Lacks 13 (first_line r)
first_line-Lacks r i =
    Lacks-append 13 r.method (32 ∷ (r.url ++ 32 ∷ r.version)) (Solid-Lacks r.method i.solid_method)
      (
        omega arith,
        Lacks-append 13 r.url (32 ∷ r.version) (Solid-Lacks r.url i.solid_url)
            (omega arith, Solid-Lacks r.version i.solid_version),
      )

-- The connection past the first line and the header lines.
abbrev pub past_head : Request → HttpConn → HttpConn
past_head r c = past_fields r.fields (record (passed (first_line r) c) {
  m_method = r.method;
  m_url = r.url;
  m_version = r.version;
  m_check_state = check_state_header;
})

-- A connection that waits for a request, with these bytes unread.
pub record Awaits (c : HttpConn) (s : Bytes) : Type 0 where
  pub unread : Unread c s
  pub at_start : c.m_check_state ≡ check_state_requestline
  pub no_content : c.m_content_length ≡ 0

pub parse_request_head :
    (r : Request) (c : HttpConn) (rest : Bytes)
    → IsRequest r
    → Awaits c (first_line r ++ 13 ∷ 10 ∷ write_fields r.fields rest)
    → parse_request c ≡ parse_request (past_head r c)
parse_request_head r c rest i w =
    parse_request_line c _ (first_line r) (write_fields r.fields rest) (first_line-Lacks r i)
      w.unread
      (ap (λ state. check_line state (first_line r) (passed (first_line r) c)) w.at_start ∙ words)
    ∙ parse_request_fields r.fields _ rest refl i.good_fields
        (record { at = v.at; within = v.within })
  where
    v : Unread (passed (first_line r) c) (write_fields r.fields rest)
    v = passed-Unread c (first_line r) (write_fields r.fields rest) w.unread

    words :
        check_line check_state_requestline (first_line r) (passed (first_line r) c)
        ≡ again (record (passed (first_line r) c) {
          m_method = r.method;
          m_url = r.url;
          m_version = r.version;
          m_check_state = check_state_header;
        })
    words =
        unfold check_line in
        request_line_words r.method r.url r.version (passed (first_line r) c) i.has_method i.has_url
          i.has_version i.solid_method i.solid_url i.solid_version

pub past_head-Unread :
    (r : Request) (c : HttpConn) (rest : Bytes)
    → Unread c (first_line r ++ 13 ∷ 10 ∷ write_fields r.fields rest)
    → Unread (past_head r c) rest
past_head-Unread r c rest u =
    let v = passed-Unread c (first_line r) (write_fields r.fields rest) u in
    let w =
      past_fields-Unread r.fields (passed (first_line r) c) rest
        (record { at = v.at; within = v.within }) in
    record { at = w.at; within = w.within }

-- The end of the head is an empty line.
parse_request_empty :
    (c : HttpConn) (rest : Bytes)
    → Unread c (13 ∷ 10 ∷ rest)
    → c.m_check_state ≡ check_state_header
    → c.m_content_length ≡ 0
    → parse_request c ≡ (returned get_request, passed [] c)
parse_request_empty c rest u s z = parse_request_lem c u.within ∙ ap (parse_go parse_request) last
  where
    last : parse_round c ≡ returns get_request (passed [] c)
    last =
        parse_round_line c [] rest tt u
        ∙ ap (λ state. check_line state [] (passed [] c)) s
        ∙ (unfold check_line in rw z)

-- The connection past a request without a body.
abbrev pub past_get : Request → HttpConn → HttpConn
past_get r c = passed [] (past_head r c)

-- A request without a body, on a connection that waits for one, is read whole: GET_REQUEST, with the
-- three words of its first line, kept if one of its lines asks for that, and with the bytes behind
-- it still unread.
pub parse_request-get :
    (r : Request) (c : HttpConn) (rest : Bytes)
    → IsRequest r
    → Awaits c (first_line r ++ 13 ∷ 10 ∷ write_fields r.fields (13 ∷ 10 ∷ rest))
    → (parse_request c ≡ (returned get_request, past_get r c))
      × ((past_get r c).m_keep_alive ≡ (any_keeps r.fields || c.m_keep_alive))
      × Unread (past_get r c) rest
parse_request-get r c rest i w = (
  parse_request_head r c (13 ∷ 10 ∷ rest) i w
      ∙ parse_request_empty (past_head r c) rest (past_head-Unread r c (13 ∷ 10 ∷ rest) w.unread)
          refl w.no_content,
  refl,
  passed-Unread (past_head r c) [] rest (past_head-Unread r c (13 ∷ 10 ∷ rest) w.unread),
)
