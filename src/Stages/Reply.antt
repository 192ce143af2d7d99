-- ===== src/Stages/Reply.antt =====
-- HTTP-Protocol: the replies of the second and the third server, as the calls that send them.
pub mod Login
pub mod Framing
use cpp_web_server.Base.{
  ℕ, ◌+◌, Bool, true, false, ◌||◌, Option, none, some, List, [], ◌∷◌, ◌++◌, leb, if◌then◌else◌,
  length, take,
}
use cpp_web_server.Kernel.{
  Syscall, epoll_ctl, epoll_ctl_mod, epoll_ctl_del, read_events, send, writev, munmap, close,
}
use cpp_web_server.Text.{Bytes, text, contains, c_str}
use cpp_web_server.Text.Find.{crlf}
use cpp_web_server.Text.Number.{to_string}
use cpp_web_server.Conn.{Mapping, nullptr, map_failed, mapped}
use cpp_web_server.Conn.Reply.{Host, login_html, default_url, file_path, cut_fields, some_rows}
use cpp_web_server.Text.{find}
use cpp_web_server.Stages.{ClientState, init}
use cpp_web_server.Stages.Pool.{MySqlPool, get_conn, return_conn}

-- EPOLL_CTL_MOD with EPOLLIN | EPOLLONESHOT | EPOLLRDHUP | EPOLLET
abbrev pub rearm : ℕ → Syscall
rearm fd = epoll_ctl (epoll_ctl_mod read_events) (some fd)

-- EPOLL_CTL_DEL and `close`.
abbrev pub hang_up : ℕ → List Syscall
hang_up fd = epoll_ctl epoll_ctl_del (some fd) ∷ close fd ∷ []

-- The length is that of "Bad Request"; no body follows.
abbrev pub bad_request_reply : Bytes
bad_request_reply =
    text "HTTP/1.1 400 Bad Request"
    ++ (crlf
        ++ (text "Content-Length: " ++ (to_string (length (text "Bad Request")) ++ (crlf ++ crlf))))

abbrev pub not_found_body : Bytes
not_found_body = text "<h1>404 Not Found</h1>"

abbrev pub not_found_header : ℕ → Bytes
not_found_header size =
    text "HTTP/1.1 404 Not Found"
    ++ (crlf ++ (text "Content-Length: " ++ (to_string size ++ (crlf ++ crlf))))

abbrev pub connection_header : Bool → Bytes
connection_header true = text "Connection: keep-alive" ++ crlf
connection_header false = text "Connection: close" ++ crlf

abbrev pub type_header : Bytes → Bytes
type_header url =
    if contains (text ".jpg") url || contains (text ".png") url
    then text "Content-Type: image/jpeg" ++ crlf
    else text "Content-Type: text/html; charset=utf-8" ++ crlf

abbrev pub file_header : Bytes → Bool → ℕ → Bytes
file_header url keep_alive size =
    text "HTTP/1.1 200 OK"
    ++ (crlf
        ++ (connection_header keep_alive
            ++ (type_header url
                ++ (text "Content-Length: " ++ (to_string size ++ (crlf ++ crlf))))))

-- The second vector.
abbrev pub file_vector : ℕ → Mapping → Option Bytes
file_vector size (mapped s) = some (take size s)
file_vector size _ = none

abbrev pub send_file : Host → ℕ → Bytes → Bytes → ℕ → List Syscall
send_file host fd header path size =
    writev fd header (file_vector size (host.open_mmap path)) ∷ munmap size ∷ []

module _ {B : Type 0} where
  abbrev pub stat_reply : Host → ℕ → ClientState B → Option ℕ → List Syscall
  stat_reply host fd c none =
      send fd (not_found_header (length not_found_body)) ∷ send fd not_found_body ∷ []
  stat_reply host fd c (some size) =
      send_file host fd (file_header c.url c.keep_alive size) (c_str (file_path c.url)) size

  -- The default page is stored in `client.url`.
  unfoldable pub serve_file : Host → ℕ → ClientState B → ClientState B × List Syscall
  serve_file host fd c =
      let c' = record c { url = default_url c.url } in
      (c', stat_reply host fd c' (host.stat (c_str (file_path c'.url))))

  -- After the reply: the next request on a client that is kept, or the end.
  unfoldable pub settle : B → ℕ → ClientState B → ClientState B × List Syscall
  unfolding init
  settle no_data fd c = if c.keep_alive then (init no_data fd c, rearm fd ∷ []) else (c, hang_up fd)

unfoldable pub parse_post_data : ClientState Bytes → Option (Bytes × Bytes)
parse_post_data c =
    cut_fields (find (text "user=") c.post_data) (find (text "&password=") c.post_data) c.post_data

-- What `sprintf` writes to `sql[1024]`; `none` where it writes past the end.
unfoldable pub login_sql : Bytes → Bytes → Option Bytes
login_sql user password =
    let sql =
      text "SELECT * FROM user WHERE username='"
      ++ (c_str user ++ (text "' AND password='" ++ (c_str password ++ text "'"))) in
    if leb (length sql + 1) 1024 then some sql else none

abbrev pub query_on : Host → ℕ → Option Bytes → MySqlPool → Option (Bool × MySqlPool)
query_on host conn none p = none
query_on host conn (some sql) p = some (some_rows (host.mysql_query conn sql), return_conn conn p)

abbrev pub login_on : Host → Option Bytes → Option ℕ × MySqlPool → Option (Bool × MySqlPool)
login_on host sql (none, p) = some (false, p)
login_on host sql (some conn, p) = query_on host conn sql p

unfoldable pub check_login : Host → Bytes → Bytes → MySqlPool → Option (Bool × MySqlPool)
unfolding get_conn return_conn
check_login host user password p = login_on host (login_sql user password) (get_conn p)

abbrev pub login_header : Bytes → Bytes
login_header html =
    text "HTTP/1.1 200 OK"
    ++ (crlf
        ++ (text "Content-Type: text/html; charset=utf-8"
            ++ (crlf
                ++ (text "Content-length:"
                    ++ (to_string (length html)
                        ++ (crlf ++ (text "Connection:keep-alive" ++ (crlf ++ crlf))))))))

unfoldable pub send_login_response : ℕ → Bool → Syscall
send_login_response fd success =
    let html = login_html success in send fd (login_header html ++ html)
