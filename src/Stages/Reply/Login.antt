-- ===== src/Stages/Reply/Login.antt =====
-- HTTP-Protocol and WebServer_Proj: a login in the third server and in the last, and the pool of the
-- third.
use mathlib.Core.List.Perm
use cpp_web_server.Base.{
  ℕ, zero, suc, ◌+◌, ◌≤◌, ◌<◌, ◌≡◌, refl, sym, ap, subst, ◌⊎◌, inl, inr, Bool, Option, none, some,
  List, [], ◌∷◌, ◌++◌, length, take, leb, Perm, Bool-cases, arith,
}
use cpp_web_server.Text.{Bytes, text, c_str}
use cpp_web_server.MySql
use cpp_web_server.MySql.Lending.{last-perm}
use cpp_web_server.Conn.Reply.{
  Host, ask, login_sql as last_login_sql, check_login as last_check_login,
}
use cpp_web_server.Stages.Pool.{MySqlPool, front, get_conn, return_conn}
use cpp_web_server.Stages.Reply.{login_sql, query_on, login_on, check_login}

-- The text of the query, of any length.
abbrev pub whole_sql : Bytes → Bytes → Bytes
whole_sql user password =
    text "SELECT * FROM user WHERE username='"
    ++ (c_str user ++ (text "' AND password='" ++ (c_str password ++ text "'")))

-- The same pool in the last server.
abbrev pub to_pool : MySqlPool → MySql.MySqlPool
to_pool p = record { conn_queue_ = p.pool; current_size_ = p.max_conn }

abbrev pub of_pool : Bool × MySql.MySqlPool → Bool × MySqlPool
of_pool (success, q) = (success, record { pool = q.conn_queue_; max_conn = q.current_size_ })

take_long : (n : ℕ) (s : Bytes) → length s ≤ n → take n s ≡ s
take_long zero [] h = refl
take_long zero (x ∷ xs) h = elim h [ ]
take_long (suc n) [] h = refl
take_long (suc n) (x ∷ xs) h = ap (◌∷◌ x) (take_long n xs (omega arith))

-- `sprintf` writes the whole text, or past the end of the buffer: it is the query of the last
-- server where it has room for it.
pub login_sql_lem :
    (user password : Bytes)
    → ((length (whole_sql user password) < 1024)
        × (login_sql user password ≡ some (last_login_sql user password)))
      ⊎ ((1024 ≤ length (whole_sql user password)) × (login_sql user password ≡ none))
unfolding login_sql last_login_sql
login_sql_lem user password = elim (Bool-cases (leb (length (whole_sql user password) + 1) 1024)) [
  | inl e ↦ inl (
    ground (arith, e),
    rw e (ap some (sym (take_long 1023 (whole_sql user password) (ground (arith, e))))),
  )
  | inr e ↦ inr (ground (arith, e), rw e refl)
]

login_on-front :
    (host : Host) (size : ℕ) (sql : Bytes) (q : List ℕ)
    → login_on host (some sql) (front q (record { pool = q; max_conn = size }))
      ≡ some (
          of_pool
            (MySql.guarded [] (ask host sql) (record { conn_queue_ = q; current_size_ = size })))
unfolding MySql.guarded MySql.get_conn MySql.return_conn return_conn
login_on-front host size sql [] = refl
login_on-front host size sql (conn ∷ rest) = refl

-- A login of the third server whose query, by its whole text, fits `sql[1024]`, while no other thread
-- gives a connection back, does not overrun it, has the result that it has in the last server, and
-- leaves the same connections in the same order.
pub check_login-of_pool :
    (host : Host) (user password : Bytes) (p : MySqlPool)
    → length (whole_sql user password) < 1024
    → check_login host user password p
      ≡ some (of_pool (last_check_login host [] user password (to_pool p)))
unfolding check_login last_check_login get_conn
check_login-of_pool host user password p h = elim (login_sql_lem user password) [
  | inl (fits, e) ↦ rw e (login_on-front host p.max_conn (last_login_sql user password) p.pool)
  | inr (long, e) ↦ absurd (omega (arith, h, long))
]

query_on-perm :
    (host : Host) (o : Option Bytes) (conn : ℕ) (rest : List ℕ) (size : ℕ) {success : Bool}
    {q : MySqlPool}
    → query_on host conn o (record { pool = rest; max_conn = size }) ≡ some (success, q)
    → Perm q.pool (conn ∷ rest)
unfolding return_conn
query_on-perm host none conn rest size e = absurd (ground arith)
query_on-perm host (some sql) conn rest size {success} {q} e =
    let same : rest ++ conn ∷ [] ≡ q.pool = ground arith in
    subst (λ l. Perm l (conn ∷ rest)) same (last-perm conn rest)

-- A login of the third server gives back the connection that it took: its pool then holds the
-- connections that it held before, in some order.
pub check_login-perm :
    (host : Host) (user password : Bytes) (p : MySqlPool) {success : Bool} {q : MySqlPool}
    → check_login host user password p ≡ some (success, q)
    → Perm q.pool p.pool
unfolding check_login get_conn
check_login-perm host user password p {success} {q} e = go p.pool refl e
  where
    go :
        (l : List ℕ)
        → p.pool ≡ l
        → login_on host (login_sql user password) (front l p) ≡ some (success, q)
        → Perm q.pool l
    go [] m e =
        let same : [] ≡ q.pool = ground (arith, m, e) in subst (λ l. Perm l []) same Perm.rfl
    go (conn ∷ rest) m e = query_on-perm host (login_sql user password) conn rest p.max_conn e
