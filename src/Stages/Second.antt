-- ===== src/Stages/Second.antt =====
-- HTTP-Protocol: `get_line` and `parse_http_request` of v2_http_parser.cpp, whose client has no
-- `post_data`.
use cpp_web_server.Base.{
  ℕ, zero, suc, ◌+◌, ◌-◌, ◌%◌, ◌^◌, true, ◌&&◌, Option, none, some, leb, if◌then◌else◌, length,
  drop,
}
use cpp_web_server.Text.{Bytes, text, find, contains, substr, read_word}
use cpp_web_server.Text.Find.{crlf}
use cpp_web_server.Text.Number.{Stoi, parsed, stoi}
use cpp_web_server.Conn.{
  CheckState, check_state_requestline, check_state_header, check_state_content, no_request,
  get_request, bad_request,
}
use cpp_web_server.Conn.Parse.{is_empty, to_size, in_content}
use cpp_web_server.Stages.{ClientState, to_int, of_stoi, Outcome, returned, thrown, out_of_fuel}
use cpp_web_server.Stages.Parse.{Flow, again, returns, throws, is_zero}

abbrev pub SecondClient : Type 0
SecondClient = ClientState (Unit {0})

-- The line up to the CR LF that is found, and the position behind it.
abbrev pub found_line : Option ℕ → SecondClient → Option (Bytes × SecondClient)
found_line none client = none
found_line (some n) client =
    let pos = to_size client.checked_idx + n in
    some (
      substr (to_size client.checked_idx) (pos - to_size client.checked_idx) client.buffer,
      record client { checked_idx = to_int (pos + 2) },
    )

-- `none` where no CR LF has come.
unfoldable pub get_line : SecondClient → Option (Bytes × SecondClient)
get_line client = found_line (find crlf (drop (to_size client.checked_idx) client.buffer)) client

-- The first case of the `switch`.
unfoldable pub request_line : Bytes → SecondClient → Flow (Unit {0})
request_line line client =
    let (method, rest) = read_word client.method line in
    let (url, rest') = read_word client.url rest in
    let (version, _) = read_word client.version rest' in
    let client' = record client { method = method; url = url; version = version } in
    if is_empty method
    then returns bad_request client'
    else if is_empty url
    then returns bad_request client'
    else again (record client' { check_state = check_state_header })

abbrev pub length_given : Stoi → SecondClient → Flow (Unit {0})
length_given (parsed z) client = again (record client { content_length = z })
length_given e client = throws (of_stoi e) client

-- A line of the head that is not empty; `line.substr(15)` throws on one that is shorter, and one that
-- holds the word is not.
unfoldable pub head_field : Bytes → SecondClient → Flow (Unit {0})
head_field line client =
    let client' = record client {
      keep_alive =
          if contains (text "Connection:") line && contains (text "keep-alive") line
          then true
          else client.keep_alive;
    } in
    if contains (text "Content-Length:") line
    then length_given (stoi (drop 15 line)) client'
    else again client'

-- The second case.
unfoldable pub head_line : Bytes → SecondClient → Flow (Unit {0})
unfolding head_field
head_line line client =
    if is_empty line
    then if is_zero client.content_length
      then returns get_request client
      else again (record client { check_state = check_state_content })
    else head_field line client

-- The third case: the body is not kept. The difference is one of two `size_t`.
unfoldable pub body : SecondClient → Flow (Unit {0})
body client =
    let rest = (length client.buffer + 2 ^ 64 - to_size client.checked_idx) % 2 ^ 64 in
    if leb (to_size client.content_length) rest
    then returns get_request client
    else returns no_request client

unfoldable pub switch : CheckState → Bytes → SecondClient → Flow (Unit {0})
unfolding request_line head_line body
switch check_state_requestline line client = request_line line client
switch check_state_header line client = head_line line client
switch check_state_content line client = body client

-- The test of the loop and its body, on what `get_line` gives.
abbrev pub looked : Option (Bytes × SecondClient) → SecondClient → Flow (Unit {0})
looked (some (line, client')) client = switch client'.check_state line client'
looked none client =
    if in_content client.check_state then body client else returns no_request client

abbrev pub go_on :
    (SecondClient → Outcome × SecondClient) → Flow (Unit {0}) → Outcome × SecondClient
go_on loop (again client) = loop client
go_on loop (returns code client) = (returned code, client)
go_on loop (throws e client) = (thrown e, client)

unfoldable pub loop : ℕ → SecondClient → Outcome × SecondClient
loop zero client = (out_of_fuel, client)
loop (suc fuel) client = go_on (loop fuel) (looked (get_line client) client)

unfoldable pub parse_second : SecondClient → Outcome × SecondClient
parse_second client = loop (length client.buffer + 2) client
