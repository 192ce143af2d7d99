-- ===== src/Conn/Parse/Unread.antt =====
-- WebServer_Proj/HttpConn: what `get_line` gives of bytes that begin with a whole line.
use cpp_web_server.Base.{
  ◌+◌, ◌≤◌, ◌≡◌, ap, ◌∙◌, some, ◌∷◌, ◌++◌, length, length-append, length-drop, drop, take, arith,
}
use cpp_web_server.Text.{Bytes}
use cpp_web_server.Text.Find.{Lacks, find-line, drop-add, drop-length-append, take-length-append}
use cpp_web_server.Conn.{HttpConn}
use cpp_web_server.Conn.Parse.{get_line, again, check_line, parse_round, parse_go, parse_request}
use cpp_web_server.Conn.Parse.Total.{parse_request_lem}

-- The bytes that are still to be read.
pub record Unread (c : HttpConn) (s : Bytes) : Type 0 where
  pub at : drop c.m_checked_idx c.m_read_buf ≡ s
  pub within : c.m_checked_idx ≤ length c.m_read_buf

-- The connection past a line.
abbrev pub passed : Bytes → HttpConn → HttpConn
passed line c = record c { m_checked_idx = c.m_checked_idx + length line + 2 }

pub get_line-Unread :
    (c : HttpConn) (line rest : Bytes)
    → Lacks 13 line
    → Unread c (line ++ 13 ∷ 10 ∷ rest)
    → get_line c ≡ some (line, passed line c)
unfolding get_line
get_line-Unread c line rest l u =
    rw (u.at, find-line line rest l)
      (ap (λ s. some (s, passed line c))
        (ap (take (length line)) u.at ∙ take-length-append line (13 ∷ 10 ∷ rest)))

pub passed-Unread :
    (c : HttpConn) (line rest : Bytes)
    → Unread c (line ++ 13 ∷ 10 ∷ rest)
    → Unread (passed line c) rest
passed-Unread c line rest u = record {
  at =
      drop-add (c.m_checked_idx + length line) 2 c.m_read_buf
      ∙ ap (drop 2) (
          drop-add c.m_checked_idx (length line) c.m_read_buf
          ∙ ap (drop (length line)) u.at
          ∙ drop-length-append line (13 ∷ 10 ∷ rest));
  within = omega (
    arith,
    length-drop c.m_checked_idx c.m_read_buf,
    ap length u.at,
    length-append line (13 ∷ 10 ∷ rest),
    u.within,
  );
}

-- A round on bytes that begin with a line.
pub parse_round_line :
    (c : HttpConn) (line rest : Bytes)
    → Lacks 13 line
    → Unread c (line ++ 13 ∷ 10 ∷ rest)
    → parse_round c ≡ check_line c.m_check_state line (passed line c)
unfolding parse_round
parse_round_line c line rest l u = rw (get_line-Unread c line rest l u)

-- A round on a line that goes on.
pub parse_request_line :
    (c d : HttpConn) (line rest : Bytes)
    → Lacks 13 line
    → Unread c (line ++ 13 ∷ 10 ∷ rest)
    → check_line c.m_check_state line (passed line c) ≡ again d
    → parse_request c ≡ parse_request d
parse_request_line c d line rest l u e =
    parse_request_lem c u.within
    ∙ ap (parse_go parse_request) (parse_round_line c line rest l u ∙ e)
