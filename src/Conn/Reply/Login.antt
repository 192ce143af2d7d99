-- ===== src/Conn/Reply/Login.antt =====
-- WebServer_Proj/HttpConn: a login, from the body of the request to the reply.
use cpp_web_server.Base.{
  ℕ, ◌+◌, ◌-◌, ◌%◌, ◌^◌, ◌<◌, ◌≡◌, refl, ap, ap₂, ◌∙◌, Bool, true, ◌&&◌, some, List, ◌++◌, length,
  take, drop, Perm, arith,
}
use cpp_web_server.Text.{Bytes, text, same, find, starts_with}
use cpp_web_server.Text.Find.{Lacks, find-first, drop-length-append, take-length-append, drop-add}
use cpp_web_server.MySql.{MySqlPool, get_conn, wait_for}
use cpp_web_server.MySql.Lending.{guarded-Perm}
use cpp_web_server.Conn.{HttpConn}
use cpp_web_server.Conn.Reply.{
  Host, parse_post_data, login_sql, ask, check_login, login_html, login_page, login_reply,
  send_login_response, make_response,
}

-- The body of a login form.
abbrev pub login_form : Bytes → Bytes → Bytes
login_form user pwd = text "user=" ++ (user ++ (text "&password=" ++ pwd))

find_user : (user pwd : Bytes) → find (text "user=") (login_form user pwd) ≡ some 0
unfolding find text starts_with
find_user user pwd = refl

lacking : (user : Bytes) → Lacks 38 user → Lacks 38 (text "user=" ++ user)
unfolding text
lacking user l = (omega arith, (omega arith, (omega arith, (omega arith, (omega arith, l)))))

find_password :
    (user pwd : Bytes)
    → Lacks 38 user
    → find (text "&password=") (login_form user pwd) ≡ some (5 + length user)
unfolding text
find_password user pwd l =
    find-first 38 (text "password=") (text "user=" ++ user) pwd (unfold text in lacking user l)
    ∙ ap some (omega arith)

wrapped : (n : ℕ) → n < 2 ^ 64 → (5 + n + 2 ^ 64 - 5) % 2 ^ 64 ≡ n
wrapped n h = omega arith

user_part : (user pwd : Bytes) → take (length user) (drop 5 (login_form user pwd)) ≡ user
unfolding text
user_part user pwd = take-length-append user (text "&password=" ++ pwd)

password_part : (user pwd : Bytes) → drop (5 + length user + 10) (login_form user pwd) ≡ pwd
unfolding text
password_part user pwd =
    drop-add (5 + length user) 10 (login_form user pwd)
    ∙ ap (drop 10) (
        drop-add 5 (length user) (login_form user pwd)
        ∙ drop-length-append user (text "&password=" ++ pwd))

-- `parse_post_data` reads back the two fields of a login form, on the condition that the first holds
-- no ampersand and that its length is a `size_t`.
pub parse_post_data-login_form :
    (user pwd : Bytes) (c : HttpConn)
    → Lacks 38 user
    → length user < 2 ^ 64
    → c.m_post_data ≡ login_form user pwd
    → parse_post_data c ≡ some (user, pwd)
unfolding parse_post_data
parse_post_data-login_form user pwd c l h e =
    rw (e, find_user user pwd, find_password user pwd l, wrapped (length user) h)
      (ap some (ap₂ (λ a b. (a, b)) (user_part user pwd) (password_part user pwd)))

-- Whether the login succeeds: the pool had a connection, and the query selected a row.
abbrev pub granted : Host → List ℕ → Bytes → Bytes → MySqlPool → Bool
granted host arrivals user pwd pool = ask host (login_sql user pwd) (get_conn arrivals pool).0

make_response-posted :
    (host : Host) (arrivals : List ℕ) (c : HttpConn) (pool : MySqlPool)
    → (same c.m_method (text "POST") && same c.m_url (text "/login")) ≡ true
    → make_response host arrivals c pool ≡ login_reply host arrivals c pool
unfolding make_response
make_response-posted host arrivals c pool e = rw e refl

-- A POST to /login with a login form, whose user name holds no ampersand and has a `size_t`
-- length, is answered by the page of success where a connection was to be had and its query on the
-- two fields selected a row, and by the page of failure otherwise, with `m_keep_alive` set; and
-- the queue of the pool holds the same connections as when its turn came.
pub make_response-login :
    (host : Host) (arrivals : List ℕ) (c : HttpConn) (pool : MySqlPool) (user pwd : Bytes)
    → c.m_method ≡ text "POST"
    → c.m_url ≡ text "/login"
    → Lacks 38 user
    → length user < 2 ^ 64
    → c.m_post_data ≡ login_form user pwd
    → ((make_response host arrivals c pool).0.m_write_buf
        ≡ login_page (login_html (granted host arrivals user pwd pool)) true)
      × ((make_response host arrivals c pool).0.m_keep_alive ≡ true)
      × Perm (make_response host arrivals c pool).1.conn_queue_ (wait_for arrivals pool.conn_queue_)
unfolding send_login_response check_login
make_response-login host arrivals c pool user pwd m u l h e =
    let g = guarded-Perm arrivals (ask host (login_sql user pwd)) pool in
    rw
      (
        make_response-posted host arrivals c pool posted,
        parse_post_data-login_form user pwd c l h e,
      )
      (ap (λ b. login_page (login_html b) true) g.1, refl, g.0)
  where
    posted : (same c.m_method (text "POST") && same c.m_url (text "/login")) ≡ true
    posted = unfold same text in ap₂ (λ a b. same a (text "POST") && same b (text "/login")) m u
