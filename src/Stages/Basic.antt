-- ===== src/Stages/Basic.antt =====
-- HTTP-Protocol/v1_http_basic.cpp: the client and `handle_client` of the first server.
use cpp_web_server.Base.{ℕ, Option, none, some, List, [], ◌∷◌, ◌++◌, take}
use cpp_web_server.Kernel.{Syscall, send}
use cpp_web_server.Text.{Bytes, text, find, read_word, c_str}
use cpp_web_server.Text.Find.{crlf}
use cpp_web_server.Text.Number.{to_string}
use cpp_web_server.Conn.Reply.{Host, default_url, file_path}
use cpp_web_server.Stages.Reply.{rearm, not_found_body, not_found_header, send_file}

pub record ClientState : Type 0 where
  pub fd : ℕ
  pub buffer : Bytes

-- The second word of the first line, where the third server would read the URL.
abbrev pub line_url : Bytes → Bytes
line_url line = let (method, ss) = read_word [] line in (read_word [] ss).0

abbrev pub ok_header : ℕ → Bytes
ok_header size =
    text "HTTP/1.1 200 OK"
    ++ (crlf ++ (text "Content-Length: " ++ (to_string size ++ (crlf ++ crlf))))

-- `garbage` is what `file_stat.st_size` holds where `stat` has failed, and has not set it.
abbrev pub stat_reply : Host → ℕ → ℕ → Bytes → Option ℕ → List Syscall
stat_reply host garbage fd path none =
    send fd (not_found_header garbage) ∷ send fd not_found_body ∷ []
stat_reply host garbage fd path (some size) = send_file host fd (ok_header size) path size

abbrev pub reply : Host → ℕ → ℕ → Bytes → List Syscall
reply host garbage fd url =
    stat_reply host garbage fd (c_str (file_path url)) (host.stat (c_str (file_path url)))

abbrev pub respond : Host → ℕ → ℕ → Option ℕ → ClientState → ClientState × List Syscall
respond host garbage fd none c = (c, [])
respond host garbage fd (some first_line_end) c = (
  record c { buffer = [] },
  reply host garbage fd (default_url (line_url (take first_line_end c.buffer))) ++ rearm fd ∷ [],
)

unfoldable pub handle_client : Host → ℕ → ℕ → ClientState → ClientState × List Syscall
handle_client host garbage fd c = respond host garbage fd (find crlf c.buffer) c
