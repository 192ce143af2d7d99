-- ===== src/Conn/Parse/Round.antt =====
-- WebServer_Proj/HttpConn: one round of the loop in `parse_request`: what it leaves alone, and that it moves on.
use cpp_web_server.Base.{
  ◌+◌, ◌≤◌, ◌≡◌, some, [], ◌∷◌, length, length-drop, drop, Option-cases, if◌then◌else◌, inl, inr,
  arith,
}
use cpp_web_server.Text.{Bytes, find}
use cpp_web_server.Text.Find.{crlf, find-le}
use cpp_web_server.Text.Number.{Stoi, parsed, stoi}
use cpp_web_server.Conn.{
  HttpConn, CheckState, check_state_requestline, check_state_header, check_state_content,
  no_request,
}
use cpp_web_server.Conn.Parse.{
  get_line, Flow, again, returns, throws, request_line, set_length, connection_field, header_field,
  content, check_line, parse_round, in_content,
}

abbrev pub flow_conn : Flow → HttpConn
flow_conn (again c) = c
flow_conn (returns _ c) = c
flow_conn (throws _ c) = c

-- What the parser never writes.
pub record Untouched (a b : HttpConn) : Type 0 where
  pub same_fd : b.m_sockfd ≡ a.m_sockfd
  pub same_buf : b.m_read_buf ≡ a.m_read_buf
  pub same_out : b.m_write_buf ≡ a.m_write_buf
  pub same_mmap : b.m_mmap_addr ≡ a.m_mmap_addr
  pub same_count : b.m_iv_count ≡ a.m_iv_count
  pub same_to_send : b.m_bytes_to_send ≡ a.m_bytes_to_send

-- `b` differs from `a` by what a line may change, which is not the position.
pub record SamePlace (a b : HttpConn) : Type 0 where
  pub untouched : Untouched a b
  pub same_idx : b.m_checked_idx ≡ a.m_checked_idx

set_length-SamePlace : (v : Stoi) (c : HttpConn) → SamePlace c (flow_conn (set_length v c))
set_length-SamePlace (parsed z) c = ground arith
set_length-SamePlace _ c = ground arith

request_line-SamePlace :
    (line : Bytes) (c : HttpConn) → SamePlace c (flow_conn (request_line line c))
unfolding request_line
request_line-SamePlace line c = ground arith

header_field-SamePlace :
    (line : Bytes) (c : HttpConn) → SamePlace c (flow_conn (header_field line c))
unfolding header_field
header_field-SamePlace line c =
    ground (arith, set_length-SamePlace (stoi (drop 15 line)) (connection_field line c))

check_line-SamePlace :
    (state : CheckState) (line : Bytes) (c : HttpConn)
    → SamePlace c (flow_conn (check_line state line c))
unfolding check_line
check_line-SamePlace check_state_requestline line c = request_line-SamePlace line c
check_line-SamePlace check_state_header [] c = ground arith
check_line-SamePlace check_state_header (x ∷ xs) c = header_field-SamePlace (x ∷ xs) c
check_line-SamePlace check_state_content line c = ground arith

-- A line is found within the buffer, and lies wholly in it.
pub get_line-le :
    (c : HttpConn) {line : Bytes} {d : HttpConn}
    → get_line c ≡ some (line, d)
    → c.m_checked_idx ≤ length c.m_read_buf
    → SamePlace (record c { m_checked_idx = d.m_checked_idx }) d
      × (c.m_checked_idx + 2 ≤ d.m_checked_idx)
      × (d.m_checked_idx ≤ length c.m_read_buf)
unfolding get_line
get_line-le c {line} {d} e h = elim (Option-cases (find crlf (drop c.m_checked_idx c.m_read_buf))) [
  | inl m ↦ absurd (ground arith)
  | inr (n, m) ↦ ground (
    arith,
    find-le crlf (drop c.m_checked_idx c.m_read_buf) m,
    length-drop c.m_checked_idx c.m_read_buf,
  )
]

-- One round of the loop: the position stays within the buffer, and a round that goes on has
-- passed two bytes at least.
abbrev pub Advances : HttpConn → Flow → Type 0
Advances c (again d) =
    Untouched c d
    × (c.m_checked_idx + 2 ≤ d.m_checked_idx)
    × (d.m_checked_idx ≤ length c.m_read_buf)
Advances c f =
    Untouched c (flow_conn f)
    × (c.m_checked_idx ≤ (flow_conn f).m_checked_idx)
    × ((flow_conn f).m_checked_idx ≤ length c.m_read_buf)

SamePlace-Advances :
    (c d : HttpConn) (f : Flow)
    → Untouched c d
    → c.m_checked_idx + 2 ≤ d.m_checked_idx
    → d.m_checked_idx ≤ length c.m_read_buf
    → SamePlace d (flow_conn f)
    → Advances c f
SamePlace-Advances c d (again e) u lo hi s = ground arith
SamePlace-Advances c d (returns code e) u lo hi s = ground arith
SamePlace-Advances c d (throws v e) u lo hi s = ground arith

no_line-Advances :
    (c : HttpConn) (state : CheckState)
    → c.m_checked_idx ≤ length c.m_read_buf
    → Advances c (if in_content state then content c else returns no_request c)
unfolding content
no_line-Advances c state h = ground arith

pub parse_round-Advances :
    (c : HttpConn) → c.m_checked_idx ≤ length c.m_read_buf → Advances c (parse_round c)
unfolding parse_round
parse_round-Advances c h = elim (Option-cases (get_line c)) [
  | inl m ↦ rw (m, parse_round) (no_line-Advances c c.m_check_state h)
  | inr ((line, d), m) ↦
      let (s, lo, hi) = get_line-le c m h in
      rw (m, parse_round)
        (SamePlace-Advances c d _ (ground arith) lo hi
          (check_line-SamePlace d.m_check_state line d))
]
