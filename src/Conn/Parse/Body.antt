-- ===== src/Conn/Parse/Body.antt =====
-- WebServer_Proj/HttpConn: a request with a body is read back.
use cpp_web_server.Base.{
  ℕ, ◌≤◌, ◌≡◌, ◌≢◌, refl, ap, ◌∙◌, true, false, none, [], ◌∷◌, ◌++◌, pos, length, length-drop, drop,
  take, take_all, if◌then◌else◌, arith,
}
use cpp_web_server.Text.{Bytes, text, is_found, find, contains, starts_with}
use cpp_web_server.Text.Find.{
  Lacks, crlf, find-Lacks, find-Lacks_head, find-cons_none, Lacks-append,
}
use cpp_web_server.Text.Number.{parsed, stoi, to_string, int_max, stoi-to_string, to_string-Lacks}
use cpp_web_server.Conn.{HttpConn, check_state_header, check_state_content, get_request, no_request}
use cpp_web_server.Conn.Parse.{
  in_content, get_line, cut_line, again, returns, connection_field, header_field, content,
  check_line, round_on, parse_round, parse_go, parse_request, returned, set_length,
}
use cpp_web_server.Conn.Parse.Total.{parse_request_lem}
use cpp_web_server.Conn.Parse.Unread.{Unread, passed, passed-Unread, parse_request_line}
use cpp_web_server.Conn.Parse.Fields.{Request, first_line, write_fields}
use cpp_web_server.Conn.Parse.RoundTrip.{
  IsRequest, Awaits, past_head, past_head-Unread, parse_request_head,
}

-- The line that gives a body's length.
abbrev pub length_line : ℕ → Bytes
length_line n = text "Content-Length:" ++ 32 ∷ to_string n

contains_length : (n : ℕ) → contains (text "Content-Length:") (length_line n) ≡ true
unfolding text find
contains_length n = refl

keeps_length : (n : ℕ) → contains (text "Connection:") (length_line n) ≡ false
unfolding text starts_with
keeps_length n = ap is_found (
    find-cons_none (text "Connection:") 67 behind refl (
      find-Lacks_head 67 (text "onnection:") behind (
        Lacks-append 67 (text "ontent-Length:") (32 ∷ to_string n) (omega arith)
          (omega arith, to_string-Lacks 67 n refl))))
  where
    behind : Bytes
    behind = text "ontent-Length:" ++ 32 ∷ to_string n

length_line-Lacks : (n : ℕ) → Lacks 13 (length_line n)
unfolding text
length_line-Lacks n =
    Lacks-append 13 (text "Content-Length:") (32 ∷ to_string n) (omega arith)
      (omega arith, to_string-Lacks 13 n refl)

connection_field_length : (n : ℕ) (c : HttpConn) → connection_field (length_line n) c ≡ c
unfolding connection_field
connection_field_length n c = ground (arith, keeps_length n)

header_field_length :
    (n : ℕ) (c : HttpConn)
    → n ≤ int_max
    → header_field (length_line n) c ≡ again (record c { m_content_length = n })
unfolding header_field
header_field_length n c h =
    rw (contains_length n, connection_field_length n c) (ap (λ v. set_length v c) number)
  where
    number : stoi (drop 15 (length_line n)) ≡ parsed (pos n)
    number = unfold text in stoi-to_string n h

check_line_length :
    (n : ℕ) (c : HttpConn)
    → n ≤ int_max
    → check_line check_state_header (length_line n) c ≡ again (record c { m_content_length = n })
unfolding check_line text
check_line_length n c h = header_field_length n c h

-- Where the body is all that is left, and no line ends in it.
no_line_left : (c : HttpConn) (body : Bytes) → Unread c body → Lacks 13 body → get_line c ≡ none
unfolding get_line
no_line_left c body u l =
    ap (λ t. cut_line (find crlf t) c) u.at ∙ ap (λ o. cut_line o c) (find-Lacks body l)

content-Unread :
    (c : HttpConn) (body : Bytes)
    → Unread c body
    → c.m_content_length ≡ length body
    → content c ≡ returns get_request (record c { m_post_data = body })
unfolding content
content-Unread c body u n = ground (
  arith,
  length-drop c.m_checked_idx c.m_read_buf,
  ap length u.at,
  ap (take (length body)) u.at,
  take_all body,
)

parse_request_body :
    (c : HttpConn) (body : Bytes)
    → Unread c body
    → Lacks 13 body
    → c.m_check_state ≡ check_state_content
    → c.m_content_length ≡ length body
    → parse_request c ≡ (returned get_request, record c { m_post_data = body })
parse_request_body c body u l s n = parse_request_lem c u.within ∙ ap (parse_go parse_request) last
  where
    last : parse_round c ≡ returns get_request (record c { m_post_data = body })
    last =
        unfold parse_round in
        ap (λ o. round_on o c) (no_line_left c body u l)
        ∙ ap (λ state. if in_content state then content c else returns no_request c) s
        ∙ content-Unread c body u n

-- The empty line, where a body is to come.
header_end :
    (c : HttpConn) (body : Bytes)
    → body ≢ []
    → c.m_content_length ≡ length body
    → check_line check_state_header [] (passed [] c)
      ≡ again (record (passed [] c) { m_check_state = check_state_content })
unfolding check_line
header_end c [] ne e = absurd (ne refl)
header_end c (x ∷ xs) ne e = ground arith

-- The connection past a request with a body.
abbrev pub past_post : Request → Bytes → HttpConn → HttpConn
past_post r body c = record (passed [] (passed (length_line (length body)) (past_head r c))) {
  m_content_length = length body;
  m_check_state = check_state_content;
  m_post_data = body;
}

-- A request with a body that is not empty and of at most INT_MAX bytes, whose length is given by
-- the last header line, on a connection that waits for one and has the request and no more unread:
-- GET_REQUEST, with the three words of the first line and the whole body. The body must hold no
-- carriage return.
pub parse_request-post :
    (r : Request) (body : Bytes) (c : HttpConn)
    → IsRequest r
    → body ≢ []
    → length body ≤ int_max
    → Lacks 13 body
    → Awaits c (
        first_line r
        ++ 13 ∷ 10 ∷ write_fields r.fields (length_line (length body) ++ 13 ∷ 10 ∷ 13 ∷ 10 ∷ body))
    → parse_request c ≡ (returned get_request, past_post r body c)
parse_request-post r body c i ne small l w =
    parse_request_head r c _ i w
    ∙ parse_request_line c₀ c₁ (length_line (length body)) (13 ∷ 10 ∷ body)
        (length_line-Lacks (length body)) u₀ (check_line_length (length body) _ small)
    ∙ parse_request_line c₁ c₂ [] body tt u₁ (header_end c₁ body ne refl)
    ∙ parse_request_body c₂ body u₂ l refl refl
  where
    c₀ : HttpConn
    c₀ = past_head r c

    c₁ : HttpConn
    c₁ = record (passed (length_line (length body)) c₀) { m_content_length = length body }

    c₂ : HttpConn
    c₂ = record (passed [] c₁) { m_check_state = check_state_content }

    u₀ : Unread c₀ (length_line (length body) ++ 13 ∷ 10 ∷ 13 ∷ 10 ∷ body)
    u₀ = past_head-Unread r c _ w.unread

    u₁ : Unread c₁ (13 ∷ 10 ∷ body)
    u₁ =
        let v = passed-Unread c₀ (length_line (length body)) (13 ∷ 10 ∷ body) u₀ in
        record { at = v.at; within = v.within }

    u₂ : Unread c₂ body
    u₂ = let v = passed-Unread c₁ [] body u₁ in record { at = v.at; within = v.within }
