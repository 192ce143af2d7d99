-- ===== src/Stages/Parse.antt =====
-- HTTP-Protocol: `get_line` and `parse_http_request` of the third server. What becomes of a whole
-- body is a parameter: the server keeps it, by a `substr` that may throw.
pub mod Lines
pub mod Same
pub mod Second
use cpp_web_server.Base.{
  ℕ, zero, suc, ◌+◌, ◌-◌, ◌%◌, ◌^◌, ◌==◌, Bool, true, false, ◌||◌, Option, none, some, List, [],
  ◌∷◌, ℤ, pos, negsuc, leb, if◌then◌else◌, length, drop,
}
use cpp_web_server.Text.{Bytes, text, find, contains, substr, read_word}
use cpp_web_server.Text.Find.{crlf}
use cpp_web_server.Text.Number.{Stoi, parsed, stoi}
use cpp_web_server.Conn.{
  CheckState, check_state_requestline, check_state_header, check_state_content, HttpCode,
  no_request, get_request, bad_request,
}
use cpp_web_server.Conn.Parse.{is_empty, to_size, in_content}
use cpp_web_server.Stages.{
  ClientState, to_int, Exception, of_stoi, of_substr, Outcome, returned, thrown, out_of_fuel,
}

-- What the loop's body does.
pub data Flow (B : Type 0) : Type 0 where
  again : ClientState B → Flow B
  returns : HttpCode → ClientState B → Flow B
  throws : Exception → ClientState B → Flow B

abbrev pub is_zero : ℤ → Bool
is_zero (pos n) = n == 0
is_zero (negsuc n) = false

module _ {B : Type 0} where
  abbrev pub cut_line : Option ℕ → ClientState B → Option (Bytes × ClientState B)
  cut_line none c = none
  cut_line (some n) c = some (
    substr (to_size c.checked_idx) n c.buffer,
    record c { checked_idx = to_int (to_size c.checked_idx + n + 2) },
  )

  -- `none` where no CR LF has come.
  unfoldable pub get_line : ClientState B → Option (Bytes × ClientState B)
  get_line c = cut_line (find crlf (drop (to_size c.checked_idx) c.buffer)) c

  unfoldable pub request_line : Bytes → ClientState B → Flow B
  request_line line c =
      let (method, ss_1) = read_word c.method line in
      let (url, ss_2) = read_word c.url ss_1 in
      let (version, ss_3) = read_word c.version ss_2 in
      let read = record c { method = method; url = url; version = version } in
      if is_empty method || is_empty url
      then returns bad_request read
      else again (record read { check_state = check_state_header })

  abbrev pub set_length : Stoi → ClientState B → Flow B
  set_length (parsed z) c = again (record c { content_length = z })
  set_length e c = throws (of_stoi e) c

  unfoldable pub connection_field : Bytes → ClientState B → ClientState B
  connection_field line c =
      if contains (text "Connection:") line
      then if contains (text "keep-alive") line then record c { keep_alive = true } else c
      else c

  -- `line.substr(15)` throws on a line that is shorter; one that holds the word is not.
  unfoldable pub header_field : Bytes → ClientState B → Flow B
  unfolding connection_field
  header_field line c =
      if contains (text "Content-Length:") line
      then set_length (stoi (drop 15 line)) (connection_field line c)
      else again (connection_field line c)

  unfoldable pub header_line : Bytes → ClientState B → Flow B
  unfolding header_field
  header_line [] c =
      if is_zero c.content_length
      then returns get_request c
      else again (record c { check_state = check_state_content })
  header_line (x ∷ xs) c = header_field (x ∷ xs) c

  abbrev pub keep_body : Option B → ClientState B → Flow B
  keep_body none c = throws of_substr c
  keep_body (some b) c = returns get_request (record c { post_data = b })

  abbrev pub parse_go : (ClientState B → Outcome × ClientState B) → Flow B → Outcome × ClientState B
  parse_go loop (again c) = loop c
  parse_go loop (returns code c) = (returned code, c)
  parse_go loop (throws e c) = (thrown e, c)

-- `body` gets the buffer, the position and the length wanted.
module _ {B : Type 0} (body : Bytes → ℕ → ℕ → Option B) where
  -- The difference is one of two `size_t`.
  unfoldable pub content : ClientState B → Flow B
  content c =
      let size = length c.buffer in
      let position = to_size c.checked_idx in
      let wanted = to_size c.content_length in
      if leb wanted ((size + 2 ^ 64 - position) % 2 ^ 64)
      then keep_body (body c.buffer position wanted) c
      else returns no_request c

  -- The `switch`.
  unfoldable pub check_line : CheckState → Bytes → ClientState B → Flow B
  unfolding request_line header_line content
  check_line check_state_requestline line c = request_line line c
  check_line check_state_header line c = header_line line c
  check_line check_state_content line c = content c

  abbrev pub round_on : Option (Bytes × ClientState B) → ClientState B → Flow B
  round_on (some (line, c')) c = check_line c'.check_state line c'
  round_on none c = if in_content c.check_state then content c else returns no_request c

  unfoldable pub parse_round : ClientState B → Flow B
  parse_round c = round_on (get_line c) c

  unfoldable pub parse_loop : ℕ → ClientState B → Outcome × ClientState B
  parse_loop zero c = (out_of_fuel, c)
  parse_loop (suc fuel) c = parse_go (parse_loop fuel) (parse_round c)

  unfoldable pub parse_http_request : ClientState B → Outcome × ClientState B
  parse_http_request c = parse_loop (length c.buffer + 2) c

-- The third server: `buffer.substr(checked_idx, content_length)`.
abbrev pub body_substr : Bytes → ℕ → ℕ → Option Bytes
body_substr s position times =
    if leb position (length s) then some (substr position times s) else none
