-- ===== src/Stages/Pool.antt =====
-- HTTP-Protocol/mysql_pool.h: the pool of connections of the third server. `none` stands for a call
-- of `mysql_real_connect` on the null pointer of a failed `mysql_init`, which nothing tests.
use cpp_web_server.Base.{ℕ, zero, suc, Option, none, some, List, [], ◌∷◌, ◌++◌}
use cpp_web_server.MySql.{Attempt, init_failed, connect_failed, connected}

pub record MySqlPool : Type 0 where
  pub pool : List ℕ
  pub max_conn : ℕ

-- The handle of a refused connection is not closed.
unfoldable pub create_conn : Attempt → Option (Option ℕ)
create_conn init_failed = none
create_conn (connect_failed conn) = some none
create_conn (connected conn) = some (some conn)

abbrev pub push_conn : Option ℕ → MySqlPool → MySqlPool
push_conn none p = p
push_conn (some conn) p = record p { pool = p.pool ++ conn ∷ [] }

abbrev pub push_created : Option (Option ℕ) → MySqlPool → Option MySqlPool
push_created none p = none
push_created (some made) p = some (push_conn made p)

abbrev pub init_go : (MySqlPool → Option MySqlPool) → Option MySqlPool → Option MySqlPool
init_go loop none = none
init_go loop (some p) = loop p

-- The loop of `init`, with the rounds that are left and the number of the next attempt.
unfoldable pub init_loop : ℕ → ℕ → (ℕ → Attempt) → MySqlPool → Option MySqlPool
unfolding create_conn
init_loop zero i attempt p = some p
init_loop (suc left) i attempt p =
    init_go (init_loop left (suc i) attempt) (push_created (create_conn (attempt i)) p)

-- The constructor.
unfoldable pub new_pool : (ℕ → Attempt) → Option MySqlPool
unfolding init_loop
new_pool attempt = init_loop 10 0 attempt (record { pool = []; max_conn = 10 })

unfoldable pub get_instance : (ℕ → Attempt) → Option MySqlPool → Option MySqlPool
unfolding new_pool
get_instance attempt none = new_pool attempt
get_instance attempt (some p) = some p

abbrev pub front : List ℕ → MySqlPool → Option ℕ × MySqlPool
front [] p = (none, p)
front (conn ∷ rest) p = (some conn, record p { pool = rest })

unfoldable pub get_conn : MySqlPool → Option ℕ × MySqlPool
get_conn p = front p.pool p

unfoldable pub return_conn : ℕ → MySqlPool → MySqlPool
return_conn conn p = record p { pool = p.pool ++ conn ∷ [] }
