-- ===== src/Conn/Parse.antt =====
-- WebServer_Proj/HttpConn: `get_line` and the state machine of `parse_request`.
pub mod Round
pub mod Total
pub mod Arrive
pub mod Resume
pub mod Unread
pub mod Fields
pub mod RoundTrip
pub mod Body
pub mod Cut
use cpp_web_server.Base.{
  ℕ, zero, suc, ◌+◌, ◌-◌, ◌^◌, Bool, true, false, ◌||◌, Option, none, some, List, [], ◌∷◌, ◌++◌, ℤ,
  pos, negsuc, leb, ◌==◌, if◌then◌else◌, length, take, drop,
}
use cpp_web_server.Text.{Bytes, text, find, contains, substr, read_word}
use cpp_web_server.Text.Find.{crlf}
use cpp_web_server.Text.Number.{Stoi, parsed, invalid_argument, out_of_range, stoi}
use cpp_web_server.Conn.{
  HttpConn, CheckState, check_state_requestline, check_state_header, check_state_content, HttpCode,
  no_request, get_request, bad_request,
}

-- `pos` is counted from the position on.
abbrev pub cut_line : Option ℕ → HttpConn → Option (Bytes × HttpConn)
cut_line none c = none
cut_line (some n) c =
    some
      (substr c.m_checked_idx n c.m_read_buf, record c { m_checked_idx = c.m_checked_idx + n + 2 })

-- A line, and the connection past it; `none` where no CR LF has come.
unfoldable pub get_line : HttpConn → Option (Bytes × HttpConn)
get_line c = cut_line (find crlf (drop c.m_checked_idx c.m_read_buf)) c

-- What the body of the loop does: go round again, return, or let an exception of `std::stoi` out.
pub data Flow : Type 0 where
  again : HttpConn → Flow
  returns : HttpCode → HttpConn → Flow
  throws : Stoi → HttpConn → Flow

abbrev pub is_empty : Bytes → Bool
is_empty [] = true
is_empty (_ ∷ _) = false

unfoldable pub request_line : Bytes → HttpConn → Flow
request_line line c =
    let (method, ss_1) = read_word c.m_method line in
    let (url, ss_2) = read_word c.m_url ss_1 in
    let (version, ss_3) = read_word c.m_version ss_2 in
    let read = record c { m_method = method; m_url = url; m_version = version } in
    if is_empty method || is_empty url
    then returns bad_request read
    else again (record read { m_check_state = check_state_header })

-- The conversion of an `int` to `size_t`.
abbrev pub to_size : ℤ → ℕ
to_size (pos n) = n
to_size (negsuc n) = 2 ^ 64 - (n + 1)

abbrev pub set_length : Stoi → HttpConn → Flow
set_length (parsed z) c = again (record c { m_content_length = to_size z })
set_length thrown c = throws thrown c

-- The `Connection:` test, wherever in the line the words stand.
unfoldable pub connection_field : Bytes → HttpConn → HttpConn
connection_field line c =
    if contains (text "Connection:") line
    then if contains (text "keep-alive") line then record c { m_keep_alive = true } else c
    else c

unfoldable pub header_field : Bytes → HttpConn → Flow
unfolding connection_field
header_field line c =
    if contains (text "Content-Length:") line
    then set_length (stoi (drop 15 line)) (connection_field line c)
    else again (connection_field line c)

unfoldable pub header_line : Bytes → HttpConn → Flow
unfolding header_field
header_line [] c =
    if c.m_content_length == 0
    then returns get_request c
    else again (record c { m_check_state = check_state_content })
header_line (x ∷ xs) c = header_field (x ∷ xs) c

unfoldable pub content : HttpConn → Flow
content c =
    if leb c.m_content_length (length c.m_read_buf - c.m_checked_idx)
    then returns get_request
        (record c { m_post_data = substr c.m_checked_idx c.m_content_length c.m_read_buf })
    else returns no_request c

-- The `switch`. In the last state the line is not read.
unfoldable pub check_line : CheckState → Bytes → HttpConn → Flow
unfolding request_line header_line content
check_line check_state_requestline line c = request_line line c
check_line check_state_header line c = header_line line c
check_line check_state_content line c = content c

abbrev pub in_content : CheckState → Bool
in_content check_state_content = true
in_content _ = false

abbrev pub round_on : Option (Bytes × HttpConn) → HttpConn → Flow
round_on (some (line, c')) c = check_line c'.m_check_state line c'
round_on none c = if in_content c.m_check_state then content c else returns no_request c

-- One test of the loop's condition, and its body.
unfoldable pub parse_round : HttpConn → Flow
parse_round c = round_on (get_line c) c

pub data Outcome : Type 0 where
  returned : HttpCode → Outcome
  thrown : Stoi → Outcome
  out_of_fuel : Outcome

abbrev pub parse_go : (HttpConn → Outcome × HttpConn) → Flow → Outcome × HttpConn
parse_go loop (again c) = loop c
parse_go loop (returns code c) = (returned code, c)
parse_go loop (throws e c) = (thrown e, c)

unfoldable pub parse_loop : ℕ → HttpConn → Outcome × HttpConn
parse_loop zero c = (out_of_fuel, c)
parse_loop (suc fuel) c = parse_go (parse_loop fuel) (parse_round c)

-- Each round but the last takes two bytes at least, so the buffer's length is fuel enough.
unfoldable pub parse_request : HttpConn → Outcome × HttpConn
parse_request c = parse_loop (length c.m_read_buf + 2) c
