-- ===== src/Examples/Requests.antt =====
-- Tests and examples of WebServer_Proj/HttpConn: reading, parsing and the task.
use cpp_web_server.Base.{
  ◌⊎◌, ℕ, ◌≤◌, ◌≡◌, ◌≢◌, refl, ap, ◌-◌, true, false, ◌||◌, some, List, [], ◌∷◌, ◌++◌, length, arith,
}
use cpp_web_server.Kernel.{write_events}
use cpp_web_server.Text.{
  Bytes, text, same, find, starts_with, c_str, is_space, skip_space, word, read_word,
}
use cpp_web_server.Conn.{HttpConn, new_conn, check_state_content, no_request, get_request}
use cpp_web_server.Conn.Parse.{
  parse_request, parse_loop, parse_round, get_line, check_line, request_line, returned, out_of_fuel,
}
use cpp_web_server.Conn.Parse.Total.{Parsed, parse_request-Parsed}
use cpp_web_server.Conn.Parse.Resume.{resumed, parse_request_resumes}
use cpp_web_server.Conn.Parse.Arrive.{arrive}
use cpp_web_server.Conn.Parse.Unread.{Unread}
use cpp_web_server.Conn.Parse.Fields.{first_line, write_fields, any_keeps}
use cpp_web_server.Conn.Parse.RoundTrip.{Awaits, past_get, parse_request-get}
use cpp_web_server.Conn.Parse.Body.{past_post, parse_request-post, length_line}
use cpp_web_server.Conn.Parse.Unread.{passed}
use cpp_web_server.Conn.Parse.Cut.{parse_request_cut}
use cpp_web_server.Conn.Process.{process, rearm}
use cpp_web_server.Conn.Process.Answers.{
  rearms, process-rearms, IsReply, Unmapped, process-Answered,
}
use cpp_web_server.Conn.Process.Missing.{process-error_page}
use cpp_web_server.Conn.Reply.{error_page}
use cpp_web_server.Conn.Process.Serve.{process-file_reply}
use cpp_web_server.Conn.Process.Receive.{IsFresh, write_request, Serves, file_reply}
use cpp_web_server.Conn.Transfer.{
  Arrival, recv_would_block, received, read, Written, write, send_would_block,
}
use cpp_web_server.Conn.Transfer.Complete.{Accepts}
use cpp_web_server.Conn.Transfer.Progress.{total}
use cpp_web_server.Examples.{get_root, get_root-IsRequest, empty_host, small_host, two_conns}

abbrev holding : Bytes → HttpConn
holding b = record new_conn { m_sockfd = some 7; m_read_buf = b }

abbrev root_bytes : Bytes
root_bytes = write_request get_root

root_Awaits : Awaits (holding root_bytes) root_bytes
root_Awaits = record {
  unread = record { at = refl; within = omega arith };
  at_start = refl;
  no_content = refl;
}

parse_request-get_example :
    (parse_request (holding root_bytes)
      ≡ (returned get_request, past_get get_root (holding root_bytes)))
    × ((past_get get_root (holding root_bytes)).m_keep_alive ≡ (any_keeps get_root.fields || false))
    × Unread (past_get get_root (holding root_bytes)) []
parse_request-get_example =
    parse_request-get get_root (holding root_bytes) [] get_root-IsRequest root_Awaits

abbrev post_bytes : Bytes
post_bytes =
    first_line get_root
    ++ 13 ∷ 10 ∷ write_fields get_root.fields (length_line 2 ++ 13 ∷ 10 ∷ 13 ∷ 10 ∷ 104 ∷ 105 ∷ [])

post_Awaits : Awaits (holding post_bytes) post_bytes
post_Awaits = record {
  unread = record { at = refl; within = omega arith };
  at_start = refl;
  no_content = refl;
}

some_body : ◌≢◌ {A = Bytes} (104 ∷ 105 ∷ []) []
some_body e = cc

parse_request-post_example :
    parse_request (holding post_bytes)
    ≡ (returned get_request, past_post get_root (104 ∷ 105 ∷ []) (holding post_bytes))
parse_request-post_example =
    parse_request-post get_root (104 ∷ 105 ∷ []) (holding post_bytes) get_root-IsRequest some_body
      (omega arith) (omega arith, (omega arith, tt)) post_Awaits

parse_request-Parsed_example :
    Parsed (holding (71 ∷ 69 ∷ 84 ∷ [])) (parse_request (holding (71 ∷ 69 ∷ 84 ∷ [])))
parse_request-Parsed_example = parse_request-Parsed (holding (71 ∷ 69 ∷ 84 ∷ [])) (omega arith)

-- The first line has come whole, and a part of the second.
abbrev half_bytes : Bytes
half_bytes = first_line get_root ++ 13 ∷ 10 ∷ 72 ∷ 111 ∷ []

abbrev other_half : Bytes
other_half = 115 ∷ 116 ∷ 58 ∷ 32 ∷ 120 ∷ 13 ∷ 10 ∷ 13 ∷ 10 ∷ []

half_outside : (parse_request (holding half_bytes)).1.m_check_state ≢ check_state_content
unfolding parse_request parse_loop parse_round get_line check_line request_line find starts_with
    is_space skip_space word read_word
half_outside e = cc

parse_request_resumes_example :
    parse_request (arrive other_half (holding half_bytes))
    ≡ resumed other_half (parse_request (holding half_bytes))
parse_request_resumes_example =
    parse_request_resumes other_half (holding half_bytes) (omega arith) half_outside

process-rearms_example :
    ((process small_host [] (holding half_bytes) two_conns).2
      ≡ rearms (parse_request (holding half_bytes)).0 (holding half_bytes))
    × ((parse_request (holding half_bytes)).0 ≢ out_of_fuel)
process-rearms_example = process-rearms small_host [] (holding half_bytes) two_conns (omega arith)

root_code : (parse_request (holding root_bytes)).0 ≡ returned get_request
root_code = ap (λ o. o.0) parse_request_of_root
  where
    parse_request_of_root :
        parse_request (holding root_bytes)
        ≡ (returned get_request, past_get get_root (holding root_bytes))
    parse_request_of_root =
        (parse_request-get get_root (holding root_bytes) [] get_root-IsRequest root_Awaits).0

is_answer : get_request ≢ no_request
is_answer e = cc

process-Answered_example :
    IsReply (process small_host [] (holding root_bytes) two_conns).0
    ⊎ Unmapped small_host (process small_host [] (holding root_bytes) two_conns).0
process-Answered_example =
    process-Answered small_host [] (holding root_bytes) two_conns root_code is_answer

-- The request in two chunks.
abbrev root_arrival : Arrival
root_arrival = record { chunks = half_bytes ∷ other_half ∷ []; stop = recv_would_block }

root_received : received root_arrival.chunks ≡ write_request get_root
unfolding c_str
root_received = refl

IsFresh-conn : IsFresh (holding [])
IsFresh-conn = record {
  no_bytes = refl;
  at_front = refl;
  at_start = refl;
  no_content = refl;
  not_kept = refl;
}

root_Serves : Serves small_host get_root (104 ∷ 105 ∷ [])
root_Serves = record { found = refl; opened = refl }

not_post : same get_root.method (text "POST") ≡ false
unfolding same text
not_post = refl

-- The kernel takes the reply in two portions.
abbrev reply_size : ℕ
reply_size = length (file_reply get_root (104 ∷ 105 ∷ []))

abbrev portions : List ℕ
portions = 15 ∷ (reply_size - 15) ∷ []

long_reply : 15 ≤ reply_size
unfolding text
long_reply = omega arith

portions-Accepts : Accepts portions reply_size
portions-Accepts = (long_reply, (omega arith, tt))

portions-total : total portions ≡ reply_size
portions-total = omega (arith, long_reply)

process-file_reply_example :
    let d : HttpConn = (read root_arrival (holding [])).1 in
    let w : Written = write portions send_would_block (process small_host [] d two_conns).0 in
    ((read root_arrival (holding [])).0 ≡ true)
    × ((process small_host [] d two_conns).2 ≡ rearm write_events (holding []) ∷ [])
    × (w.done ≡ true)
    × (w.taken ≡ file_reply get_root (104 ∷ 105 ∷ []))
    × (w.conn.m_keep_alive ≡ any_keeps get_root.fields)
process-file_reply_example =
    process-file_reply small_host [] get_root root_arrival (holding []) two_conns (104 ∷ 105 ∷ [])
      portions IsFresh-conn get_root-IsRequest not_post refl root_received root_Serves
      portions-Accepts portions-total

-- A body of four bytes has come whole, and begins with an empty line.
abbrev body_awaited : HttpConn
body_awaited = record (holding (13 ∷ 10 ∷ 104 ∷ 105 ∷ [])) {
  m_check_state = check_state_content;
  m_content_length = 4;
}

body-Unread : Unread body_awaited (13 ∷ 10 ∷ 104 ∷ 105 ∷ [])
body-Unread = record { at = refl; within = omega arith }

parse_request_cut_example :
    parse_request body_awaited ≡ (returned no_request, passed [] body_awaited)
parse_request_cut_example =
    parse_request_cut body_awaited [] (104 ∷ 105 ∷ []) refl tt body-Unread (omega arith)

abbrev page_size : ℕ
page_size = length (error_page 404 (text "Not Found"))

abbrev page_portions : List ℕ
page_portions = page_size ∷ []

page_portions-Accepts : Accepts page_portions page_size
page_portions-Accepts = (omega arith, tt)

page_portions-total : total page_portions ≡ page_size
page_portions-total = omega arith

process-error_page_example :
    let d : HttpConn = (read root_arrival (holding [])).1 in
    let w : Written = write page_portions send_would_block (process empty_host [] d two_conns).0 in
    ((read root_arrival (holding [])).0 ≡ true)
    × ((process empty_host [] d two_conns).2 ≡ rearm write_events (holding []) ∷ [])
    × (w.done ≡ true)
    × (w.taken ≡ error_page 404 (text "Not Found"))
    × (w.conn.m_keep_alive ≡ false)
process-error_page_example =
    process-error_page empty_host [] get_root root_arrival (holding []) two_conns page_portions
      IsFresh-conn get_root-IsRequest not_post refl root_received refl page_portions-Accepts
      page_portions-total
