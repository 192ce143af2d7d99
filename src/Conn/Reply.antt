-- ===== src/Conn/Reply.antt =====
-- WebServer_Proj/HttpConn: the replies. The file system and the database are the record `Host`.
pub mod Framing
pub mod Login
use cpp_web_server.Base.{
  ℕ, ◌+◌, ◌-◌, ◌%◌, ◌^◌, Bool, true, false, ◌&&◌, ◌||◌, Option, none, some, List, [], ◌∷◌, ◌++◌,
  ltb, if◌then◌else◌, length, take, drop,
}
use cpp_web_server.Text.{Bytes, text, same, find, contains, substr, c_str}
use cpp_web_server.Text.Find.{crlf}
use cpp_web_server.Text.Number.{to_string}
use cpp_web_server.MySql.{MySqlPool, guarded}
use cpp_web_server.Conn.{HttpConn, Mapping, nullptr, in_write_buf, in_mapping}

-- What the process asks of its host: `stat` (the size, `none` where the call fails), `open` and `mmap`
-- of a path, and the rows that a query selects (`none` where `mysql_query` fails).
pub record Host : Type 0 where
  pub stat : Bytes → Option ℕ
  pub open_mmap : Bytes → Mapping
  pub mysql_query : ℕ → Bytes → Option ℕ

-- What a reply leaves to be sent: the write buffer in one vector.
abbrev pub one_vector : HttpConn → HttpConn
one_vector c = record c {
  m_iv_0 = record { iov_base = in_write_buf 0; iov_len = length c.m_write_buf };
  m_iv_count = 1;
  m_bytes_to_send = length c.m_write_buf;
  m_bytes_have_send = 0;
  m_mmap_addr = nullptr;
}

abbrev pub error_body : ℕ → Bytes → Bytes
error_body code msg =
    text "<html><body><h1>" ++ (to_string code ++ (text " " ++ (msg ++ text "</h1></body></html>")))

abbrev pub error_page : ℕ → Bytes → Bytes
error_page code msg =
    text "HTTP/1.1 "
    ++ (to_string code
        ++ (text " "
            ++ (msg
                ++ (crlf
                    ++ (text "Content-Type: text/html; charset=utf-8"
                        ++ (crlf
                            ++ (text "Content-Length: "
                                ++ (to_string (length (error_body code msg))
                                    ++ (crlf
                                        ++ (text "Connection: close"
                                            ++ (crlf ++ (crlf ++ error_body code msg))))))))))))

unfoldable pub send_error : ℕ → Bytes → HttpConn → HttpConn
send_error code msg c =
    one_vector (record c { m_write_buf = error_page code msg; m_keep_alive = false })

unfoldable pub login_html : Bool → Bytes
login_html true =
    text "<html><head><meta charset='UTF-8'></head>"
    ++ (text "<body style='text-align:center; padding-top:100px; font-family:Arial;'>"
        ++ (text "<h1 style='color:green;'>✅ 登录成功！账号密码完全正确！</h1>"
            ++ (text "<p>MySQL 数据库验证通过！</p>"
                ++ (text "<a href='/index.html' style='font-size:20px;'>🔙 返回首页</a>"
                    ++ text "</body></html>"))))
login_html false =
    text "<html><head><meta charset='UTF-8'></head>"
    ++ (text "<body style='text-align:center; padding-top:100px; font-family:Arial;'>"
        ++ (text "<h1 style='color:red;'>❌ 登录失败！</h1>"
            ++ (text "<p>账号或密码与 MySQL 数据库不匹配，请重试。</p>"
                ++ (text "<a href='/login.html' style='font-size:20px;'>🔄 重新登录</a>"
                    ++ text "</body></html>"))))

abbrev pub connection_line : Bool → Bytes
connection_line keep_alive =
    if keep_alive then text "Connection: keep-alive" ++ crlf else text "Connection: close" ++ crlf

abbrev pub login_page : Bytes → Bool → Bytes
login_page html keep_alive =
    text "HTTP/1.1 200 OK"
    ++ (crlf
        ++ (text "Content-Type: text/html; charset=utf-8"
            ++ (crlf
                ++ (text "Content-Length: "
                    ++ (to_string (length html)
                        ++ (crlf ++ (connection_line keep_alive ++ (crlf ++ html))))))))

-- Both branches set `m_keep_alive`.
unfoldable pub send_login_response : Bool → HttpConn → HttpConn
send_login_response success c =
    one_vector
      (record c { m_write_buf = login_page (login_html success) true; m_keep_alive = true })

-- `user` and `pwd`; the length of `user` is a difference of two `size_t`.
abbrev pub cut_fields : Option ℕ → Option ℕ → Bytes → Option (Bytes × Bytes)
cut_fields (some user_pos) (some pwd_pos) post = some (
  substr (user_pos + 5) ((pwd_pos + 2 ^ 64 - (user_pos + 5)) % 2 ^ 64) post,
  drop (pwd_pos + 10) post,
)
cut_fields _ _ post = none

unfoldable pub parse_post_data : HttpConn → Option (Bytes × Bytes)
parse_post_data c =
    cut_fields (find (text "user=") c.m_post_data) (find (text "&password=") c.m_post_data)
      c.m_post_data

-- What `snprintf` leaves in `sql[1024]`.
unfoldable pub login_sql : Bytes → Bytes → Bytes
login_sql user pwd = take 1023 (
    text "SELECT * FROM user WHERE username='"
    ++ (c_str user ++ (text "' AND password='" ++ (c_str pwd ++ text "'"))))

abbrev pub some_rows : Option ℕ → Bool
some_rows none = false
some_rows (some rows) = ltb 0 rows

abbrev pub ask : Host → Bytes → Option ℕ → Bool
ask host sql none = false
ask host sql (some conn) = some_rows (host.mysql_query conn sql)

unfoldable pub check_login : Host → List ℕ → Bytes → Bytes → MySqlPool → Bool × MySqlPool
check_login host arrivals user pwd = guarded arrivals (ask host (login_sql user pwd))

-- The default page.
abbrev pub default_url : Bytes → Bytes
default_url url = if same url (text "/") then text "/index.html" else url

abbrev pub file_path : Bytes → Bytes
file_path url = text "./resources" ++ url

abbrev pub content_type : Bytes → Bytes
content_type url =
    if contains (text ".jpg") url || contains (text ".png") url
    then text "Content-Type: image/jpeg" ++ crlf
    else text "Content-Type: text/html; charset=utf-8" ++ crlf

abbrev pub file_head : Bytes → Bool → ℕ → Bytes
file_head url keep_alive size =
    text "HTTP/1.1 200 OK"
    ++ (crlf
        ++ (content_type url
            ++ (connection_line keep_alive
                ++ (text "Content-Length: " ++ (to_string size ++ (crlf ++ crlf))))))

-- What is left to be sent of a file: the head in one vector, the mapping in the other.
abbrev pub two_vectors : Mapping → ℕ → HttpConn → HttpConn
two_vectors mapping size c = record c {
  m_file_stat_size = size;
  m_mmap_addr = mapping;
  m_iv_0 = record { iov_base = in_write_buf 0; iov_len = length c.m_write_buf };
  m_iv_1 = record { iov_base = in_mapping 0; iov_len = size };
  m_iv_count = 2;
  m_bytes_to_send = length c.m_write_buf + size;
  m_bytes_have_send = 0;
}

abbrev pub serve_path : Host → Option ℕ → HttpConn → HttpConn
serve_path host none c = send_error 404 (text "Not Found") c
serve_path host (some size) c =
    two_vectors (host.open_mmap (c_str (file_path c.m_url))) size
      (record c { m_write_buf = file_head c.m_url c.m_keep_alive size })

unfoldable pub serve_static_file : Host → HttpConn → HttpConn
serve_static_file host c =
    let url = default_url c.m_url in
    serve_path host (host.stat (c_str (file_path url))) (record c { m_url = url })

abbrev pub login_result : Host → List ℕ → Option (Bytes × Bytes) → MySqlPool → Bool × MySqlPool
login_result host arrivals none pool = (false, pool)
login_result host arrivals (some (user, pwd)) pool = check_login host arrivals user pwd pool

-- The reply to a login.
abbrev pub login_reply : Host → List ℕ → HttpConn → MySqlPool → HttpConn × MySqlPool
login_reply host arrivals c pool =
    let (success, pool') = login_result host arrivals (parse_post_data c) pool in
    (send_login_response success c, pool')

unfoldable pub make_response : Host → List ℕ → HttpConn → MySqlPool → HttpConn × MySqlPool
make_response host arrivals c pool =
    if same c.m_method (text "POST") && same c.m_url (text "/login")
    then login_reply host arrivals c pool
    else (serve_static_file host c, pool)
