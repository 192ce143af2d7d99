-- ===== src/Stages/Parse/Second.antt =====
-- HTTP-Protocol: the parser of the second server and the one of the third do the same, but for the
-- body that the third keeps.
use cpp_web_server.Base.{
  ℕ, zero, suc, ◌+◌, ◌-◌, ◌≡◌, refl, true, Option, none, some, [], ◌∷◌, length, drop, arith,
}
use cpp_web_server.Text.{Bytes, find}
use cpp_web_server.Text.Find.{crlf}
use cpp_web_server.Text.Number.{Stoi, parsed, invalid_argument, out_of_range, stoi}
use cpp_web_server.Conn.{
  CheckState, check_state_requestline, check_state_header, check_state_content,
}
use cpp_web_server.Conn.Parse.{to_size}
use cpp_web_server.Stages.{ClientState, Outcome}
use cpp_web_server.Stages.Parse.{
  Flow, again, returns, throws, cut_line, get_line, request_line, set_length, connection_field,
  header_field, header_line, content, check_line, round_on, parse_round, parse_go, parse_loop,
  parse_http_request, body_substr,
}
use cpp_web_server.Stages.Parse.Lines.{IsInRange}
use cpp_web_server.Stages.Parse.Same.{get_line-IsInRange, parse_round-IsInRange}
use cpp_web_server.Stages.Second
use cpp_web_server.Stages.Second.{
  SecondClient, found_line, length_given, head_field, head_line, body, switch, looked, go_on, loop,
  parse_second,
}

-- A client of the third server, without the field that the second does not have.
abbrev pub forget : ClientState Bytes → ClientState (Unit {0})
forget c = record {
  fd = c.fd;
  buffer = c.buffer;
  check_state = c.check_state;
  checked_idx = c.checked_idx;
  post_data = tt;
  method = c.method;
  url = c.url;
  version = c.version;
  keep_alive = c.keep_alive;
  content_length = c.content_length;
}

abbrev forget_flow : Flow Bytes → Flow (Unit {0})
forget_flow (again c) = again (forget c)
forget_flow (returns code c) = returns code (forget c)
forget_flow (throws e c) = throws e (forget c)

abbrev pub forget_run : Outcome × ClientState Bytes → Outcome × ClientState (Unit {0})
forget_run (o, c) = (o, forget c)

abbrev forget_line : Option (Bytes × ClientState Bytes) → Option (Bytes × ClientState (Unit {0}))
forget_line none = none
forget_line (some (line, c)) = some (line, forget c)

request_line-forget :
    (line : Bytes) (c : ClientState Bytes)
    → Second.request_line line (forget c) ≡ forget_flow (request_line line c)
unfolding Second.request_line request_line
request_line-forget line c = ground arith

length_given-forget :
    (v : Stoi) (c : ClientState Bytes) → length_given v (forget c) ≡ forget_flow (set_length v c)
length_given-forget (parsed z) c = refl
length_given-forget invalid_argument c = refl
length_given-forget out_of_range c = refl

head_field-forget :
    (line : Bytes) (c : ClientState Bytes)
    → head_field line (forget c) ≡ forget_flow (header_field line c)
unfolding head_field header_field connection_field
head_field-forget line c = ground (
  arith,
  length_given-forget (stoi (drop 15 line)) c,
  length_given-forget (stoi (drop 15 line)) (record c { keep_alive = true }),
)

head_line-forget :
    (line : Bytes) (c : ClientState Bytes)
    → head_line line (forget c) ≡ forget_flow (header_line line c)
unfolding head_line header_line
head_line-forget [] c = ground arith
head_line-forget (x ∷ xs) c = head_field-forget (x ∷ xs) c

body-forget :
    (c : ClientState Bytes) → IsInRange c → body (forget c) ≡ forget_flow (content body_substr c)
unfolding body content
body-forget c r = ground (arith, r.within)

switch-forget :
    (state : CheckState) (line : Bytes) (c : ClientState Bytes)
    → IsInRange c
    → switch state line (forget c) ≡ forget_flow (check_line body_substr state line c)
unfolding switch check_line
switch-forget check_state_requestline line c r = request_line-forget line c
switch-forget check_state_header line c r = head_line-forget line c
switch-forget check_state_content line c r = body-forget c r

get_line-forget : (c : ClientState Bytes) → Second.get_line (forget c) ≡ forget_line (get_line c)
unfolding Second.get_line get_line
get_line-forget c = go (find crlf (drop (to_size c.checked_idx) c.buffer))
  where
    go : (o : Option ℕ) → found_line o (forget c) ≡ forget_line (cut_line o c)
    go none = refl
    go (some n) =
        let same : to_size c.checked_idx + n - to_size c.checked_idx ≡ n = omega arith in
        rw same refl

looked-forget :
    (o : Option (Bytes × ClientState Bytes)) (c : ClientState Bytes)
    → IsInRange c
    → get_line c ≡ o
    → looked (forget_line o) (forget c) ≡ forget_flow (round_on body_substr o c)
looked-forget none c r e = ground (arith, body-forget c r)
looked-forget (some (line, d)) c r e = switch-forget d.check_state line d (get_line-IsInRange c r e)

round_forget :
    (c : ClientState Bytes)
    → IsInRange c
    → looked (Second.get_line (forget c)) (forget c) ≡ forget_flow (parse_round body_substr c)
unfolding parse_round
round_forget c r = rw (get_line-forget c) (looked-forget (get_line c) c r refl)

loop-forget :
    (fuel : ℕ) (c : ClientState Bytes)
    → IsInRange c
    → loop fuel (forget c) ≡ forget_run (parse_loop body_substr fuel c)
unfolding loop parse_loop
loop-forget zero c r = refl
loop-forget (suc fuel) c r =
    rw (round_forget c r) (go (loop-forget fuel) (parse_round body_substr c) refl)
  where
    go :
        ((d : ClientState Bytes)
          → IsInRange d
          → loop fuel (forget d) ≡ forget_run (parse_loop body_substr fuel d))
        → (f : Flow Bytes) → parse_round body_substr c ≡ f
        → go_on (loop fuel) (forget_flow f) ≡ forget_run (parse_go (parse_loop body_substr fuel) f)
    go ih (again d) e = ih d (parse_round-IsInRange c r e)
    go ih (returns code d) e = refl
    go ih (throws x d) e = refl

-- On a client whose position lies in a buffer shorter than 2 GiB, the second server's parser gives
-- what the third server's parser gives, without the body that the third keeps.
pub parse_second-forget :
    (c : ClientState Bytes)
    → IsInRange c
    → parse_second (forget c) ≡ forget_run (parse_http_request body_substr c)
unfolding parse_second parse_http_request
parse_second-forget c r = loop-forget (length c.buffer + 2) c r
