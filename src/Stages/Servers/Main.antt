-- ===== src/Stages/Servers/Main.antt =====
-- HTTP-Protocol: what `main` does where a call before the loop fails, and the size of the third
-- server's pool.
use cpp_web_server.Base.{
  ℕ, zero, suc, ◌+◌, ◌≤◌, ◌&&◌, ◌≡◌, refl, ◌∙◌, Bool, true, false, Option, none, some, List, [],
  ◌∷◌, length, length-append, arith,
}
use cpp_web_server.Kernel.{Syscall, sigpipe_ignored}
use cpp_web_server.MySql.{Attempt, init_failed, connect_failed, connected}
use cpp_web_server.Stages.Loop.{Stage, Serving, Event}
use cpp_web_server.Stages.Pool.{MySqlPool, create_conn, push_created, init_go, init_loop, new_pool}
use cpp_web_server.Stages.Servers.{Setup, returned_error, open_listen, serve_on, serve}

abbrev is_some : Option ℕ → Bool
is_some none = false
is_some (some _) = true

-- Whether they do.
abbrev pub all_ok : Setup → Bool
all_ok k = is_some k.socket && (k.bind_ok && (k.listen_ok && (is_some k.epoll_create && k.add_ok)))

open_fails :
    (o p : Option ℕ) (bind_ok listen_ok add_ok : Bool)
    → all_ok (record {
      socket = o;
      bind_ok = bind_ok;
      listen_ok = listen_ok;
      epoll_create = p;
      add_ok = add_ok;
    })
      ≡ false
    → (open_listen o (record {
      socket = o;
      bind_ok = bind_ok;
      listen_ok = listen_ok;
      epoll_create = p;
      add_ok = add_ok;
    })).0
      ≡ none
open_fails none p b l a e = refl
open_fails (some fd) p false l a e = refl
open_fails (some fd) p true false a e = refl
open_fails (some fd) none true true a e = refl
open_fails (some fd) (some q) true true false e = refl
open_fails (some fd) (some q) true true true e = absurd (ground (arith, e))

-- A server whose socket, bind, listen, epoll instance or registration fails returns -1, and does not
-- come to its loop.
pub serve-returned_error :
    {S E : Type 0} (stage : Stage S E) (k : Setup) (waits : List (Option (List Event)))
    (s : Serving S E)
    → all_ok k ≡ false
    → (calls : List Syscall) × (serve stage k waits s ≡ some (returned_error calls))
unfolding serve
serve-returned_error stage k waits s bad =
    go (open_listen k.socket k)
      (open_fails k.socket k.epoll_create k.bind_ok k.listen_ok k.add_ok bad)
  where
    go :
        (r : Option ℕ × List Syscall)
        → r.0 ≡ none
        → (calls : List Syscall) × (serve_on stage (r.0, sigpipe_ignored ∷ r.1) waits s
            ≡ some (returned_error calls))
    go (none, calls) e = (sigpipe_ignored ∷ calls, refl)
    go (some fd, calls) e = absurd (ground (arith, e))

create_pushes :
    (a : Attempt) (p q : MySqlPool)
    → push_created (create_conn a) p ≡ some q
    → (length q.pool ≤ length p.pool + 1) × (q.max_conn ≡ p.max_conn)
unfolding create_conn
create_pushes init_failed p q e = absurd (ground arith)
create_pushes (connect_failed conn) p q e = ground arith
create_pushes (connected conn) p q e = ground (arith, length-append p.pool (conn ∷ []))

init_loop_size :
    (left i : ℕ) (attempt : ℕ → Attempt) (p q : MySqlPool)
    → init_loop left i attempt p ≡ some q
    → (length q.pool ≤ length p.pool + left) × (q.max_conn ≡ p.max_conn)
unfolding init_loop
init_loop_size zero i attempt p q e = ground arith
init_loop_size (suc left) i attempt p q e =
    go (init_loop_size left (suc i) attempt) (push_created (create_conn (attempt i)) p) refl e
  where
    go :
        ((r q : MySqlPool)
          → init_loop left (suc i) attempt r ≡ some q
          → (length q.pool ≤ length r.pool + left) × (q.max_conn ≡ r.max_conn))
        → (o : Option MySqlPool) → push_created (create_conn (attempt i)) p ≡ o
        → init_go (init_loop left (suc i) attempt) o ≡ some q
        → (length q.pool ≤ length p.pool + suc left) × (q.max_conn ≡ p.max_conn)
    go ih none m e = absurd (ground arith)
    go ih (some r) m e =
        let (x, y) = ih r q e in
        let (x', y') = create_pushes (attempt i) p r m in (omega (arith, x, x'), y ∙ y')

-- Whatever the database answers, the pool of the third server holds at most as many connections as
-- it is meant to, which are ten.
pub new_pool_size :
    (attempt : ℕ → Attempt) (p : MySqlPool)
    → new_pool attempt ≡ some p
    → (length p.pool ≤ p.max_conn) × (p.max_conn ≡ 10)
unfolding new_pool
new_pool_size attempt p e =
    let (x, y) = init_loop_size 10 0 attempt (record { pool = []; max_conn = 10 }) p e in
    (omega (arith, x, y), y)
