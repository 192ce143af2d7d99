-- ===== src/MySql.antt =====
-- WebServer_Proj/MySQL_Pool: the queue of idle connections. A `MYSQL*` is a number; what the client
-- library answers is an argument. The mutex makes each operation one step; what other threads give
-- back while `get_conn` waits on the condition variable is an argument too.
pub mod Lending
pub mod Sharing
use cpp_web_server.Base.{ℕ, zero, suc, ◌+◌, Option, none, some, List, [], ◌∷◌, ◌++◌, length}

pub record MySqlPool : Type 0 where
  pub conn_queue_ : List ℕ
  pub current_size_ : ℕ

-- POOL_SIZE
abbrev pub pool_size : ℕ
pool_size = 8

-- What `mysql_init` and `mysql_real_connect` answer.
pub data Attempt : Type 0 where
  init_failed : Attempt
  connect_failed connected : ℕ → Attempt

-- The connection, and the handles closed.
unfoldable pub create_conn_ : Attempt → Option ℕ × List ℕ
create_conn_ init_failed = (none, [])
create_conn_ (connect_failed conn) = (none, conn ∷ [])
create_conn_ (connected conn) = (some conn, [])

abbrev pub push_new : Option ℕ → MySqlPool → MySqlPool
push_new none p = p
push_new (some conn) p = record {
  conn_queue_ = p.conn_queue_ ++ conn ∷ [];
  current_size_ = suc p.current_size_;
}

-- The loop of `init_pool_`, with the rounds that are left and the number of the next attempt.
unfoldable pub init_loop : ℕ → ℕ → (ℕ → Attempt) → MySqlPool → MySqlPool
unfolding create_conn_
init_loop zero i attempt p = p
init_loop (suc left) i attempt p =
    init_loop left (suc i) attempt (push_new (create_conn_ (attempt i)).0 p)

unfoldable pub init_pool_ : (ℕ → Attempt) → MySqlPool
unfolding init_loop
init_pool_ attempt = init_loop pool_size 0 attempt (record { conn_queue_ = []; current_size_ = 0 })

-- `get_instance`: the pool is made at the first call.
unfoldable pub get_instance : (ℕ → Attempt) → Option MySqlPool → MySqlPool
unfolding init_pool_
get_instance attempt none = init_pool_ attempt
get_instance attempt (some p) = p

-- An empty queue holds, after the wait of at most 500 ms, what the others gave back.
abbrev pub wait_for : List ℕ → List ℕ → List ℕ
wait_for arrivals [] = arrivals
wait_for arrivals queue = queue

abbrev pub pop_front : List ℕ → MySqlPool → Option ℕ × MySqlPool
pop_front [] p = (none, record p { conn_queue_ = [] })
pop_front (conn ∷ rest) p = (some conn, record p { conn_queue_ = rest })

unfoldable pub get_conn : List ℕ → MySqlPool → Option ℕ × MySqlPool
get_conn arrivals p = pop_front (wait_for arrivals p.conn_queue_) p

unfoldable pub return_conn : Option ℕ → MySqlPool → MySqlPool
return_conn none p = p
return_conn (some conn) p = record p { conn_queue_ = p.conn_queue_ ++ conn ∷ [] }

unfoldable pub idle_count : MySqlPool → ℕ
idle_count p = length p.conn_queue_

-- The destructor: the handles closed, and the pool that is left.
unfoldable pub destroy : MySqlPool → List ℕ × MySqlPool
destroy p = (p.conn_queue_, record { conn_queue_ = []; current_size_ = 0 })

-- `ConnGuard` around `body`, which gets the connection or a null pointer; the destructor gives back
-- what the constructor got.
unfoldable pub guarded {ℓ} : {A : Type ℓ} → List ℕ → (Option ℕ → A) → MySqlPool → A × MySqlPool
unfolding get_conn return_conn
guarded arrivals body p = let (conn, p') = get_conn arrivals p in (body conn, return_conn conn p')
