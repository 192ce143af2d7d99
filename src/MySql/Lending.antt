-- ===== src/MySql/Lending.antt =====
-- WebServer_Proj/MySQL_Pool: no connection is lost or given to two users.
use mathlib.Core.List.Perm
use cpp_web_server.Base.{
  ℕ, zero, suc, ◌+◌, ◌≤◌, ◌≡◌, refl, ◌∙◌, Option, none, some, List, [], ◌∷◌, ◌++◌, length,
  length-append, Perm, arith,
}
use cpp_web_server.MySql.{
  MySqlPool, pool_size, Attempt, init_failed, connect_failed, connected, create_conn_, push_new,
  init_loop, init_pool_, get_conn, return_conn, wait_for, pop_front, guarded,
}

-- What the threads do with the pool: one takes a connection, after the others gave back `arrivals`,
-- and one gives a connection back.
abbrev pub of_option : Option ℕ → List ℕ
of_option none = []
of_option (some conn) = conn ∷ []

-- The loop of `init_pool_` queues at most one connection in each round, and counts it.
init_loop-counts :
    (left i : ℕ) (attempt : ℕ → Attempt) (p : MySqlPool)
    → p.current_size_ ≡ length p.conn_queue_
    → ((init_loop left i attempt p).current_size_ ≡ length (init_loop left i attempt p).conn_queue_)
      × ((init_loop left i attempt p).current_size_ ≤ p.current_size_ + left)
unfolding init_loop create_conn_
init_loop-counts zero i attempt p e = (e, omega arith)
init_loop-counts (suc left) i attempt p e = go (attempt i) (init_loop-counts left (suc i) attempt)
  where
    go :
        (a : Attempt)
        → ((q : MySqlPool)
            → q.current_size_ ≡ length q.conn_queue_
            → ((init_loop left (suc i) attempt q).current_size_
                ≡ length (init_loop left (suc i) attempt q).conn_queue_)
              × ((init_loop left (suc i) attempt q).current_size_ ≤ q.current_size_ + left))
        → ((init_loop left (suc i) attempt (push_new (create_conn_ a).0 p)).current_size_
            ≡ length (init_loop left (suc i) attempt (push_new (create_conn_ a).0 p)).conn_queue_)
          × ((init_loop left (suc i) attempt (push_new (create_conn_ a).0 p)).current_size_
              ≤ p.current_size_ + suc left)
    go init_failed ih = let (x, y) = ih p e in (x, omega arith)
    go (connect_failed conn) ih = let (x, y) = ih p e in (x, omega arith)
    go (connected conn) ih =
        let q : MySqlPool = record {
          conn_queue_ = p.conn_queue_ ++ conn ∷ [];
          current_size_ = suc p.current_size_;
        } in
        let (x, y) = ih q (omega (arith, length-append p.conn_queue_ (conn ∷ []))) in
        (x, omega arith)

-- Whatever the database answers, a new pool counts the connections that it queues, which are at
-- most POOL_SIZE.
pub init_pool_-counts :
    (attempt : ℕ → Attempt)
    → ((init_pool_ attempt).current_size_ ≡ length (init_pool_ attempt).conn_queue_)
      × ((init_pool_ attempt).current_size_ ≤ pool_size)
unfolding init_pool_
init_pool_-counts attempt =
    init_loop-counts pool_size 0 attempt (record { conn_queue_ = []; current_size_ = 0 }) refl

-- What the pool holds when its turn comes: its queue, or else what the others gave back.
get_conn-front :
    (arrivals : List ℕ) (p : MySqlPool)
    → of_option (get_conn arrivals p).0 ++ (get_conn arrivals p).1.conn_queue_
      ≡ wait_for arrivals p.conn_queue_
unfolding get_conn
get_conn-front arrivals p = go (wait_for arrivals p.conn_queue_)
  where
    go : (q : List ℕ) → of_option (pop_front q p).0 ++ (pop_front q p).1.conn_queue_ ≡ q
    go [] = refl
    go (conn ∷ rest) = refl

-- A connection that goes to the end of the queue.
pub last-perm : (conn : ℕ) (rest : List ℕ) → Perm (rest ++ conn ∷ []) (conn ∷ rest)
last-perm conn [] = Perm.rfl
last-perm conn (x ∷ rest) = Perm.trans (Perm.cons x (last-perm conn rest)) (Perm.swap conn x rest)

return_conn-perm :
    (q : List ℕ) (p : MySqlPool)
    → Perm (return_conn (pop_front q p).0 (pop_front q p).1).conn_queue_ q
unfolding return_conn
return_conn-perm [] p = Perm.rfl
return_conn-perm (conn ∷ rest) p = last-perm conn rest

return_conn-size :
    (o : Option ℕ) (p : MySqlPool) → (return_conn o p).current_size_ ≡ p.current_size_
unfolding return_conn
return_conn-size none p = refl
return_conn-size (some conn) p = refl

get_conn-size : (q : List ℕ) (p : MySqlPool) → (pop_front q p).1.current_size_ ≡ p.current_size_
get_conn-size [] p = refl
get_conn-size (conn ∷ rest) p = refl

-- `check_login`'s guard gives back what it took: the queue then holds, in some order, what it held
-- when the guard's turn came; the body has run on what `get_conn` gave; and the size is the same.
pub guarded-Perm {ℓ} :
    {A : Type ℓ} (arrivals : List ℕ) (body : Option ℕ → A) (p : MySqlPool)
    → Perm (guarded arrivals body p).1.conn_queue_ (wait_for arrivals p.conn_queue_)
      × ((guarded arrivals body p).0 ≡ body (get_conn arrivals p).0)
      × ((guarded arrivals body p).1.current_size_ ≡ p.current_size_)
unfolding guarded
guarded-Perm arrivals body p = (
  unfold get_conn in return_conn-perm (wait_for arrivals p.conn_queue_) p,
  refl,
  return_conn-size (get_conn arrivals p).0 (get_conn arrivals p).1
      ∙ (unfold get_conn in get_conn-size (wait_for arrivals p.conn_queue_) p),
)
