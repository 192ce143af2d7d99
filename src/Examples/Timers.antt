-- ===== src/Examples/Timers.antt =====
-- Tests and examples of WebServer_Proj/Timer.
use cpp_web_server.Base.{ℕ, ◌≡◌, refl, none, some, [], ◌∷◌, map, arith}
use cpp_web_server.Timer.{Timer, TimerNode, insert_node, expire_front}
use cpp_web_server.Timer.Registry.{IsValid, adjusts, run_op, registry_op, registry-run_op}
use cpp_web_server.Timer.Deadlines.{deadline}
use cpp_web_server.TimerTest.{TimerTest, scan, as_test, expire_front-scan}
use cpp_web_server.Examples.{local}

abbrev node : ℕ → ℕ → TimerNode
node fd expire = record { fd = fd; expire = expire; addr = local }

abbrev two_timers : Timer
two_timers = record {
  list_ = node 7 20 ∷ node 4 32 ∷ [];
  pipefd_0 = some 5;
  pipefd_1 = some 6;
  epoll_fd_ = some 3;
}

two_timers-IsValid : IsValid two_timers
unfolding deadline
two_timers-IsValid = record {
  sorted = (omega arith, (omega arith, tt));
  unique = (refl, (refl, tt));
}

test_insert : insert_node (node 9 25) two_timers.list_ ≡ node 7 20 ∷ node 9 25 ∷ node 4 32 ∷ []
unfolding insert_node
test_insert = refl

test_expire : expire_front 20 two_timers.list_ ≡ (7 ∷ [], node 4 32 ∷ [])
unfolding expire_front
test_expire = refl

free_9 : deadline 9 two_timers.list_ ≡ none
unfolding deadline
free_9 = refl

registry-run_op_example :
    deadline 7 (run_op 10 (adjusts 7) two_timers).list_
    ≡ registry_op 10 (adjusts 7) (λ k. deadline k two_timers.list_) 7
registry-run_op_example = registry-run_op 10 (adjusts 7) two_timers 7 tt two_timers-IsValid

expire_front-scan_example :
    ((expire_front 25 two_timers.list_).0 ≡ (scan 25 (map as_test two_timers.list_)).0)
    × (map as_test (expire_front 25 two_timers.list_).1
        ≡ (scan 25 (map as_test two_timers.list_)).1)
expire_front-scan_example = expire_front-scan 25 two_timers.list_ two_timers-IsValid.sorted

-- The timers of `main`, of which the second is due first here.
abbrev three_nodes : TimerTest
three_nodes = record {
  list_ =
      record { fd = 1; expire = 12 }
      ∷ record { fd = 2; expire = 5 }
      ∷ record { fd = 3; expire = 8 }
      ∷ [];
  pipefd_0 = some 5;
  pipefd_1 = some 6;
  epoll_fd_ = some 3;
}
