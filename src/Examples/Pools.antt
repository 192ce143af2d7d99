-- ===== src/Examples/Pools.antt =====
-- Tests and examples of WebServer_Proj/Thread_Pool and WebServer_Proj/MySQL_Pool.
use cpp_web_server.Base.{
  ◌+◌, ℕ, zero, suc, ◌≤◌, ◌≡◌, ◌≢◌, refl, true, false, none, some, List, [], ◌∷◌, Perm,
}
use cpp_web_server.Workers.{
  waiting, running, exited, ThreadPool, start, submit, worker_step, wake, request_stop,
}
use cpp_web_server.Workers.Drain.{work, schedule, schedule-work}
use cpp_web_server.Workers.Runs.{
  Act, submits, steps, stops, History, new_history, act, acts, IsSound, acts-new_history-IsSound,
}
use cpp_web_server.Workers.Finish.{IsFinished, stopped-IsFinished}
use cpp_web_server.MySql.{Attempt, connected, connect_failed, init_pool_}
use cpp_web_server.MySql.Sharing.{
  gets, gives, all_conns, pool_acts, new_shared, pool_acts-new_shared-perm,
}
use cpp_web_server.SafeQueue.{
  QueueAct, pushes, pops, new_run, queue_acts, IsFifo, queue_acts-new_run-IsFifo,
}
use cpp_web_server.SafeQueue

-- One worker takes a task, while another is submitted and the pool is stopped, and both are done.
abbrev one_worker : List (Act ℕ)
one_worker =
    submits 7
    ∷ steps 0
    ∷ submits 8
    ∷ stops
    ∷ submits 9
    ∷ steps 0
    ∷ steps 0
    ∷ steps 0
    ∷ steps 0
    ∷ steps 0
    ∷ steps 0
    ∷ []

acts-new_history-IsSound_example : IsSound (acts one_worker (new_history 1))
acts-new_history-IsSound_example = acts-new_history-IsSound 1 one_worker

test_begun : (acts one_worker (new_history 1)).begun ≡ 7 ∷ 8 ∷ []
unfolding acts act start submit worker_step wake request_stop
test_begun = refl

abbrev at_end : History ℕ
at_end = record {
  pool = record { stop_ = true; pending_tasks_ = 0; tasks_ = []; workers_ = exited ∷ [] };
  given = 7 ∷ 8 ∷ [];
  begun = 7 ∷ 8 ∷ [];
}

one_worker-ends : acts one_worker (new_history 1) ≡ at_end
unfolding acts act start submit worker_step wake request_stop
one_worker-ends = refl

at_end-IsSound : IsSound at_end
unfolding acts act start submit worker_step wake request_stop
at_end-IsSound = acts-new_history-IsSound 1 one_worker

at_end-rests : (i : ℕ) → worker_step i at_end.pool ≡ none
unfolding worker_step
at_end-rests zero = refl
at_end-rests (suc i) = refl

some_workers : at_end.pool.workers_ ≢ []
some_workers e = cc

stopped-IsFinished_example : IsFinished at_end
stopped-IsFinished_example = stopped-IsFinished at_end at_end-IsSound refl some_workers at_end-rests

abbrev one_task : ThreadPool ℕ
one_task = record { stop_ = false; pending_tasks_ = 1; tasks_ = 7 ∷ []; workers_ = waiting ∷ [] }

abbrev one_running : ThreadPool ℕ
one_running = record { stop_ = false; pending_tasks_ = 1; tasks_ = []; workers_ = running 7 ∷ [] }

takes_and_runs :
    schedule (0 ∷ 0 ∷ 0 ∷ []) one_task
    ≡ some (record one_running { pending_tasks_ = 0; workers_ = waiting ∷ [] })
unfolding schedule worker_step wake
takes_and_runs = refl

schedule-work_example :
    3 + work (record one_running { pending_tasks_ = 0; workers_ = waiting ∷ [] }) ≤ work one_task
schedule-work_example =
    schedule-work (0 ∷ 0 ∷ 0 ∷ []) one_task
      (record one_running { pending_tasks_ = 0; workers_ = waiting ∷ [] }) takes_and_runs

-- Every second attempt is refused.
abbrev attempts : ℕ → Attempt
attempts zero = connected 100
attempts (suc i) = connect_failed i

abbrev queue_history : List (QueueAct ℕ)
queue_history = pushes 5 ∷ pushes 6 ∷ pops ∷ SafeQueue.stops ∷ pops ∷ []

queue_acts-new_run-IsFifo_example : IsFifo 1 (queue_acts queue_history (new_run 1))
queue_acts-new_run-IsFifo_example = queue_acts-new_run-IsFifo 1 queue_history

pool_acts-new_shared-perm_example :
    Perm
      (all_conns (pool_acts (gets ∷ gets ∷ gives 0 ∷ []) (new_shared attempts)))
      (init_pool_ attempts).conn_queue_
pool_acts-new_shared-perm_example = pool_acts-new_shared-perm attempts (gets ∷ gets ∷ gives 0 ∷ [])
