-- ===== src/Conn/Parse/Arrive.antt =====
-- WebServer_Proj/HttpConn: bytes that arrive behind a line do not change what is made of the line.
use cpp_web_server.Base.{
  ℕ, zero, suc, ◌≤◌, ◌≡◌, ◌≢◌, refl, ◌∙◌, Option, none, some, [], ◌∷◌, ◌++◌, length, drop, arith,
}
use cpp_web_server.Text.{Bytes, find}
use cpp_web_server.Text.Find.{crlf, find-le, find-append, drop-append, take-append}
use cpp_web_server.Text.Number.{Stoi, parsed, stoi}
use cpp_web_server.Conn.{
  HttpConn, CheckState, check_state_requestline, check_state_header, check_state_content,
  no_request,
}
use cpp_web_server.Conn.Parse.{
  get_line, cut_line, Flow, again, returns, throws, request_line, set_length, connection_field,
  header_field, content, check_line, round_on, parse_round, parse_go, parse_loop,
}

-- More bytes arrive.
abbrev pub arrive : Bytes → HttpConn → HttpConn
arrive b c = record c { m_read_buf = c.m_read_buf ++ b }

abbrev pub arrive_flow : Bytes → Flow → Flow
arrive_flow b (again c) = again (arrive b c)
arrive_flow b (returns code c) = returns code (arrive b c)
arrive_flow b (throws e c) = throws e (arrive b c)

get_line-arrive :
    (b : Bytes) (c : HttpConn) {line : Bytes} {d : HttpConn}
    → c.m_checked_idx ≤ length c.m_read_buf
    → get_line c ≡ some (line, d)
    → get_line (arrive b c) ≡ some (line, arrive b d)
unfolding get_line
get_line-arrive b c {line} {d} h e = go (find crlf (drop c.m_checked_idx c.m_read_buf)) refl e
  where
    go :
        (o : Option ℕ)
        → find crlf (drop c.m_checked_idx c.m_read_buf) ≡ o
        → cut_line o c ≡ some (line, d)
        → get_line (arrive b c) ≡ some (line, arrive b d)
    go none m e = cc
    go (some n) m e =
        rw
          (
            drop-append c.m_checked_idx c.m_read_buf b h,
            find-append crlf (drop c.m_checked_idx c.m_read_buf) b m,
          )
          (ground (
            arith,
            drop-append c.m_checked_idx c.m_read_buf b h,
            take-append n (drop c.m_checked_idx c.m_read_buf) b,
            find-le crlf (drop c.m_checked_idx c.m_read_buf) m,
          ))

set_length-arrive :
    (b : Bytes) (v : Stoi) (c : HttpConn)
    → set_length v (arrive b c) ≡ arrive_flow b (set_length v c)
set_length-arrive b (parsed z) c = refl
set_length-arrive b _ c = refl

request_line-arrive :
    (b line : Bytes) (c : HttpConn)
    → request_line line (arrive b c) ≡ arrive_flow b (request_line line c)
unfolding request_line
request_line-arrive b line c = ground arith

connection_field-arrive :
    (b line : Bytes) (c : HttpConn)
    → connection_field line (arrive b c) ≡ arrive b (connection_field line c)
unfolding connection_field
connection_field-arrive b line c = ground arith

header_field-arrive :
    (b line : Bytes) (c : HttpConn)
    → header_field line (arrive b c) ≡ arrive_flow b (header_field line c)
unfolding header_field
header_field-arrive b line c = ground (
  arith,
  connection_field-arrive b line c,
  set_length-arrive b (stoi (drop 15 line)) (connection_field line c),
)

-- Outside the body a line is read the same, whatever has come behind it.
check_line-arrive :
    (b : Bytes) (state : CheckState) (line : Bytes) (c : HttpConn)
    → state ≢ check_state_content
    → check_line state line (arrive b c) ≡ arrive_flow b (check_line state line c)
unfolding check_line
check_line-arrive b check_state_requestline line c n = request_line-arrive b line c
check_line-arrive b check_state_header [] c n = ground arith
check_line-arrive b check_state_header (x ∷ xs) c n = header_field-arrive b (x ∷ xs) c
check_line-arrive b check_state_content line c n = absurd (n refl)

pub get_line_state :
    (c : HttpConn) {line : Bytes} {d : HttpConn}
    → get_line c ≡ some (line, d)
    → d.m_check_state ≡ c.m_check_state
unfolding get_line
get_line_state c {line} {d} = go (find crlf (drop c.m_checked_idx c.m_read_buf))
  where
    go : (o : Option ℕ) → cut_line o c ≡ some (line, d) → d.m_check_state ≡ c.m_check_state
    go none e = cc
    go (some n) e = ground arith

-- A round outside the body goes the same way in the longer buffer, unless it waits for a line.
pub parse_round-arrive :
    (b : Bytes) (c : HttpConn)
    → c.m_checked_idx ≤ length c.m_read_buf
    → c.m_check_state ≢ check_state_content
    → get_line c ≢ none
    → parse_round (arrive b c) ≡ arrive_flow b (parse_round c)
unfolding parse_round
parse_round-arrive b c h n found = go (get_line c) refl
  where
    go :
        (o : Option (Bytes × HttpConn))
        → get_line c ≡ o
        → parse_round (arrive b c) ≡ arrive_flow b (parse_round c)
    go none m = absurd (found m)
    go (some (line, c')) m =
        rw (m, get_line-arrive b c h m)
          (check_line-arrive b c'.m_check_state line c' (rw (get_line_state c m) n))

-- Where no line is left, a round outside the body ends with NO_REQUEST and changes nothing.
pub parse_round_wait :
    (c : HttpConn)
    → c.m_check_state ≢ check_state_content
    → get_line c ≡ none
    → parse_round c ≡ returns no_request c
unfolding parse_round
parse_round_wait c n e = rw e (ground arith)

pub check_line-no_request :
    (state : CheckState) (line : Bytes) (c d : HttpConn)
    → check_line state line c ≡ returns no_request d
    → state ≡ check_state_content
unfolding check_line
check_line-no_request check_state_requestline line c d e = ground arith
check_line-no_request check_state_header [] c d e = ground arith
check_line-no_request check_state_header (x ∷ xs) c d e = ground arith
check_line-no_request check_state_content line c d e = ground arith

-- The body is the last state: a round in it ends the loop, and leaves the state as it was.
abbrev StaysIn : Flow → Type 0
StaysIn (again d) = ⊥
StaysIn (returns code d) = d.m_check_state ≡ check_state_content
StaysIn (throws e d) = ⊥

content-StaysIn : (c : HttpConn) → c.m_check_state ≡ check_state_content → StaysIn (content c)
unfolding content
content-StaysIn c e = ground arith

check_line-StaysIn :
    (state : CheckState) (line : Bytes) (c : HttpConn)
    → state ≡ check_state_content
    → c.m_check_state ≡ check_state_content
    → StaysIn (check_line state line c)
unfolding check_line
check_line-StaysIn check_state_content line c s e = content-StaysIn c e
check_line-StaysIn _ line c s e = cc

parse_round-StaysIn :
    (c : HttpConn) → c.m_check_state ≡ check_state_content → StaysIn (parse_round c)
unfolding parse_round
parse_round-StaysIn c e = go (get_line c) refl
  where
    go : (o : Option (Bytes × HttpConn)) → get_line c ≡ o → StaysIn (round_on o c)
    go none m = ground (arith, content-StaysIn c e)
    go (some (line, d)) m =
        let s = get_line_state c m ∙ e in check_line-StaysIn d.m_check_state line d s s

pub parse_loop_content :
    (fuel : ℕ) (c : HttpConn)
    → c.m_check_state ≡ check_state_content
    → (parse_loop fuel c).1.m_check_state ≡ check_state_content
unfolding parse_loop
parse_loop_content zero c e = e
parse_loop_content (suc fuel) c e = go (parse_round c) (parse_round-StaysIn c e)
  where
    go :
        (f : Flow)
        → StaysIn f
        → (parse_go (parse_loop fuel) f).1.m_check_state ≡ check_state_content
    go (again d) s = absurd s
    go (returns code d) s = s
    go (throws v d) s = absurd s

-- To go on after a first result, once `b` has come.
