-- ===== src/MySql/Sharing.antt =====
-- WebServer_Proj/MySQL_Pool: threads that take connections and give them back, in any order.
use mathlib.Core.List.Perm
use cpp_web_server.Base.{
  ℕ, zero, suc, sym, subst, Option, none, some, List, [], ◌∷◌, ◌++◌, append-nil, append_assoc, Perm,
}
use cpp_web_server.MySql.{
  MySqlPool, get_conn, return_conn, init_pool_, pop_front, wait_for, Attempt,
}
use cpp_web_server.MySql.Lending.{of_option}

-- A thread asks for a connection without waiting, or the one with the `i`th connection lent, gives
-- it back.
pub data PoolAct : Type 0 where
  gets : PoolAct
  gives : ℕ → PoolAct

-- The pool, and the connections that the threads have.
pub record Shared : Type 0 where
  pub pool : MySqlPool
  pub lent : List ℕ

abbrev take_at : ℕ → List ℕ → Option ℕ × List ℕ
take_at i [] = (none, [])
take_at zero (x ∷ xs) = (some x, xs)
take_at (suc i) (x ∷ xs) = let rest = take_at i xs in (rest.0, x ∷ rest.1)

unfoldable pub pool_act : PoolAct → Shared → Shared
pool_act gets s =
    let (conn, p) = get_conn [] s.pool in record { pool = p; lent = of_option conn ++ s.lent }
pool_act (gives i) s =
    let (conn, rest) = take_at i s.lent in record { pool = return_conn conn s.pool; lent = rest }

unfoldable pub pool_acts : List PoolAct → Shared → Shared
pool_acts [] s = s
pool_acts (a ∷ rest) s = pool_acts rest (pool_act a s)

abbrev pub all_conns : Shared → List ℕ
all_conns s = s.pool.conn_queue_ ++ s.lent

take_at-perm : (i : ℕ) (l : List ℕ) → Perm (of_option (take_at i l).0 ++ (take_at i l).1) l
take_at-perm i [] = Perm.rfl
take_at-perm zero (x ∷ xs) = Perm.rfl
take_at-perm (suc i) (x ∷ xs) = go (take_at i xs) (take_at-perm i xs)
  where
    go :
        (r : Option ℕ × List ℕ)
        → Perm (of_option r.0 ++ r.1) xs
        → Perm (of_option r.0 ++ x ∷ r.1) (x ∷ xs)
    go (none, rest) p = Perm.cons x p
    go (some c, rest) p = Perm.trans (Perm.swap x c rest) (Perm.cons x p)

middle-perm : (c : ℕ) (xs ys : List ℕ) → Perm (xs ++ c ∷ ys) (c ∷ (xs ++ ys))
middle-perm c [] ys = Perm.rfl
middle-perm c (x ∷ xs) ys =
    Perm.trans (Perm.cons x (middle-perm c xs ys)) (Perm.swap c x (xs ++ ys))

gets-perm : (s : Shared) → Perm (all_conns (pool_act gets s)) (all_conns s)
unfolding pool_act get_conn
gets-perm s = go s.pool.conn_queue_
  where
    go :
        (q : List ℕ)
        → Perm
            ((pop_front (wait_for [] q) s.pool).1.conn_queue_
              ++ (of_option (pop_front (wait_for [] q) s.pool).0 ++ s.lent))
            (q ++ s.lent)
    go [] = Perm.rfl
    go (c ∷ rest) = middle-perm c rest s.lent

gives-perm : (i : ℕ) (s : Shared) → Perm (all_conns (pool_act (gives i) s)) (all_conns s)
unfolding pool_act return_conn
gives-perm i s = go (take_at i s.lent) (take_at-perm i s.lent)
  where
    go :
        (r : Option ℕ × List ℕ)
        → Perm (of_option r.0 ++ r.1) s.lent
        → Perm ((return_conn r.0 s.pool).conn_queue_ ++ r.1) (s.pool.conn_queue_ ++ s.lent)
    go (none, rest) p = Perm.append_left s.pool.conn_queue_ p
    go (some c, rest) p =
        subst (λ l. Perm l (s.pool.conn_queue_ ++ s.lent))
          (sym (append_assoc s.pool.conn_queue_ (c ∷ []) rest))
          (Perm.append_left s.pool.conn_queue_ p)

pool_act-perm : (a : PoolAct) (s : Shared) → Perm (all_conns (pool_act a s)) (all_conns s)
pool_act-perm gets s = gets-perm s
pool_act-perm (gives i) s = gives-perm i s

pool_acts-perm :
    (acts : List PoolAct) (s : Shared) → Perm (all_conns (pool_acts acts s)) (all_conns s)
unfolding pool_acts
pool_acts-perm [] s = Perm.rfl
pool_acts-perm (a ∷ rest) s = Perm.trans (pool_acts-perm rest (pool_act a s)) (pool_act-perm a s)

abbrev pub new_shared : (ℕ → Attempt) → Shared
new_shared attempt = record { pool = init_pool_ attempt; lent = [] }

-- However threads take connections from a new pool and give them back: those queued and those lent
-- are together the connections that the pool was made with, each as often as it was made.
pub pool_acts-new_shared-perm :
    (attempt : ℕ → Attempt) (acts : List PoolAct)
    → Perm (all_conns (pool_acts acts (new_shared attempt))) (init_pool_ attempt).conn_queue_
pool_acts-new_shared-perm attempt acts =
    subst (Perm (all_conns (pool_acts acts (new_shared attempt))))
      (append-nil (init_pool_ attempt).conn_queue_) (pool_acts-perm acts (new_shared attempt))
