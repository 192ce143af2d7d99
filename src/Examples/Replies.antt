-- ===== src/Examples/Replies.antt =====
-- Tests and examples of WebServer_Proj/HttpConn: replies, logins and transfers.
use cpp_web_server.Base.{◌≡◌, ◌≢◌, refl, true, some, [], ◌∷◌, length, Perm, arith}
use cpp_web_server.Text.{Bytes, text}
use cpp_web_server.Text.Find.{Lacks}
use cpp_web_server.Conn.{HttpConn, new_conn, in_write_buf, in_mapping, mapped}
use cpp_web_server.Conn.Reply.{login_html, login_page, make_response}
use cpp_web_server.Conn.Reply.Login.{login_form, granted, make_response-login}
use cpp_web_server.Conn.Transfer.{gather, write, write_loop, drop_sent, advance, send_would_block}
use cpp_web_server.Conn.Transfer.{Arrival, recv_error, recv_would_block}
use cpp_web_server.Conn.Transfer.Vectors.{IsSending}
use cpp_web_server.Conn.Transfer.Complete.{Accepts, Sends, Resumable, write-Sends}
use cpp_web_server.Examples.{small_host, two_conns}

abbrev user : Bytes
user = 98 ∷ 111 ∷ 98 ∷ []

abbrev password : Bytes
password = 49 ∷ 50 ∷ []

abbrev login_request : HttpConn
login_request = record new_conn {
  m_sockfd = some 7;
  m_method = text "POST";
  m_url = text "/login";
  m_post_data = login_form user password;
}

user-Lacks : Lacks 38 user
user-Lacks = (omega arith, (omega arith, (omega arith, tt)))

make_response-login_example :
    ((make_response small_host [] login_request two_conns).0.m_write_buf
      ≡ login_page (login_html (granted small_host [] user password two_conns)) true)
    × ((make_response small_host [] login_request two_conns).0.m_keep_alive ≡ true)
    × Perm (make_response small_host [] login_request two_conns).1.conn_queue_ (100 ∷ 101 ∷ [])
make_response-login_example =
    make_response-login small_host [] login_request two_conns user password refl refl user-Lacks
      (omega arith) refl

-- Three bytes of the head and two of the file are to be sent.
abbrev sending : HttpConn
sending = record new_conn {
  m_sockfd = some 7;
  m_write_buf = 1 ∷ 2 ∷ 3 ∷ [];
  m_mmap_addr = mapped (4 ∷ 5 ∷ []);
  m_file_stat_size = 2;
  m_iv_0 = record { iov_base = in_write_buf 0; iov_len = 3 };
  m_iv_1 = record { iov_base = in_mapping 0; iov_len = 2 };
  m_iv_count = 2;
  m_bytes_to_send = 5;
}

sending-IsSending : IsSending sending
sending-IsSending = record { covers = (refl, refl); counted = refl }

some_to_send : sending.m_bytes_to_send ≢ 0
some_to_send = omega arith

some_to_gather : length (gather sending) ≢ 0
some_to_gather = omega arith

two_then_two : Accepts (2 ∷ 2 ∷ []) (length (gather sending))
two_then_two = (omega arith, (omega arith, tt))

write-Sends_example :
    Sends sending (write (2 ∷ 2 ∷ []) send_would_block sending)
    × Resumable (write (2 ∷ 2 ∷ []) send_would_block sending)
write-Sends_example = write-Sends (2 ∷ 2 ∷ []) sending sending-IsSending some_to_send two_then_two

two_then_three : Accepts (2 ∷ 3 ∷ []) (length (gather sending))
two_then_three = (omega arith, (omega arith, tt))

test_taken : (write (2 ∷ 3 ∷ []) send_would_block sending).taken ≡ 1 ∷ 2 ∷ 3 ∷ 4 ∷ 5 ∷ []
unfolding write write_loop advance drop_sent
test_taken = refl

-- Two chunks, and the peer's reset.
abbrev two_chunks : Arrival
two_chunks = record { chunks = (71 ∷ []) ∷ (69 ∷ 84 ∷ []) ∷ []; stop = recv_error }

abbrev with_nul : Arrival
with_nul = record { chunks = (71 ∷ 0 ∷ 69 ∷ []) ∷ (84 ∷ []) ∷ []; stop = recv_would_block }
