-- ===== src/Conn/Parse/Cut.antt =====
-- WebServer_Proj/HttpConn: what the test of the loop in `parse_request` does to a body with a line end.
use cpp_web_server.Base.{◌<◌, ◌≡◌, ap, ◌∙◌, ◌∷◌, ◌++◌, length, length-drop, arith}
use cpp_web_server.Text.{Bytes}
use cpp_web_server.Text.Find.{Lacks}
use cpp_web_server.Conn.{HttpConn, check_state_content, no_request}
use cpp_web_server.Conn.Parse.{
  returns, content, check_line, parse_round, parse_go, parse_request, returned,
}
use cpp_web_server.Conn.Parse.Total.{parse_request_lem}
use cpp_web_server.Conn.Parse.Unread.{Unread, passed, passed-Unread, parse_round_line}

content-short :
    (c : HttpConn) (rest : Bytes)
    → Unread c rest
    → length rest < c.m_content_length
    → content c ≡ returns no_request c
unfolding content
content-short c rest u h = ground (arith, length-drop c.m_checked_idx c.m_read_buf, ap length u.at)

-- While a body is awaited, the first CR LF in what is unread is stepped over, with all before it,
-- although it belongs to the body: if fewer bytes follow it than the whole body has, the call
-- waits for more, also where the whole body is there.
pub parse_request_cut :
    (c : HttpConn) (line rest : Bytes)
    → c.m_check_state ≡ check_state_content
    → Lacks 13 line
    → Unread c (line ++ 13 ∷ 10 ∷ rest)
    → length rest < c.m_content_length
    → parse_request c ≡ (returned no_request, passed line c)
parse_request_cut c line rest s l u h =
    parse_request_lem c u.within ∙ ap (parse_go parse_request) last
  where
    last : parse_round c ≡ returns no_request (passed line c)
    last =
        parse_round_line c line rest l u
        ∙ ap (λ state. check_line state line (passed line c)) s
        ∙ (unfold check_line in content-short (passed line c) rest (passed-Unread c line rest u) h)
