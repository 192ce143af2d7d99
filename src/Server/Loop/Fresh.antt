-- ===== src/Server/Loop/Fresh.antt =====
-- WebServer_Proj/WebServer: what the loop comes to is reached by the steps of the server.
use cpp_web_server.Base.{
  ℕ, ◌≡◌, refl, Bool, true, false, Option, none, some, List, [], ◌∷◌, ◌++◌, get_elem?,
  if◌then◌else◌,
}
use cpp_web_server.MySql.{MySqlPool}
use cpp_web_server.Workers.{ThreadPool, Phase, waiting, running, finishing, exited, worker_step}
use cpp_web_server.Conn.Reply.{Host}
use cpp_web_server.Server.{WebServer, Handled}
use cpp_web_server.Server.Invariant.{AcceptsFresh, handles, schedules, works, Reach, later}
use cpp_web_server.Server.Loop.{
  Turn, event_turn, worker_turn, task_turn, scheduled, worked, turn, turns, Round, wakes,
  interrupts, fails, run_loop,
}

-- No event of the run accepts a connection on an open descriptor.
abbrev pub TurnFresh : Turn → WebServer → Type 0
TurnFresh (event_turn i) s = AcceptsFresh i.now i.accepted s
TurnFresh (worker_turn worker) s = Unit {0}
TurnFresh (task_turn worker host arrivals pool) s = Unit {0}

abbrev pub AllFresh : List Turn → WebServer → Type 0
AllFresh [] s = Unit {0}
AllFresh (t ∷ ts) s = TurnFresh t s × AllFresh ts (turn t s).0

abbrev pub LoopFresh : List Round → WebServer → Type 0
LoopFresh [] s = Unit {0}
LoopFresh (wakes ts ∷ rounds) s = AllFresh ts s × LoopFresh rounds (turns ts s).0
LoopFresh (interrupts ∷ rounds) s = LoopFresh rounds s
LoopFresh (fails ∷ rounds) s = Unit {0}

scheduled-Reach :
    {n : ℕ} (worker : ℕ) (s : WebServer) (o : Option (ThreadPool ℕ))
    → worker_step worker s.thread_pool_ ≡ o
    → Reach n s
    → Reach n (scheduled o s)
scheduled-Reach worker s none e r = r
scheduled-Reach worker s (some p) e r = later r (schedules worker e)

worked-Reach :
    {n : ℕ} (worker : ℕ) (host : Host) (arrivals : List ℕ) (pool : MySqlPool) (s : WebServer)
    (o : Option (Phase ℕ))
    → get_elem? s.thread_pool_.workers_ worker ≡ o
    → Reach n s
    → Reach n (worked o host arrivals pool s).0
worked-Reach worker host arrivals pool s none e r = r
worked-Reach worker host arrivals pool s (some waiting) e r = r
worked-Reach worker host arrivals pool s (some finishing) e r = r
worked-Reach worker host arrivals pool s (some exited) e r = r
worked-Reach worker host arrivals pool s (some (running fd)) e r =
    later r (works worker fd host arrivals pool e)

turn-Reach : {n : ℕ} (t : Turn) (s : WebServer) → TurnFresh t s → Reach n s → Reach n (turn t s).0
turn-Reach (event_turn i) s f r = later r (handles i f)
turn-Reach (worker_turn worker) s f r = scheduled-Reach worker s _ refl r
turn-Reach (task_turn worker host arrivals pool) s f r =
    worked-Reach worker host arrivals pool s _ refl r

turns-Reach :
    {n : ℕ} (ts : List Turn) (s : WebServer) → AllFresh ts s → Reach n s → Reach n (turns ts s).0
unfolding turns
turns-Reach [] s f r = r
turns-Reach (t ∷ ts) s f r = turns-Reach ts (turn t s).0 f.1 (turn-Reach t s f.0 r)

pub pick-Reach :
    {n : ℕ} (b : Bool) (p q : Handled) → Reach n p.0 → Reach n q.0 → Reach n (if b then p else q).0
pick-Reach true p q i j = i
pick-Reach false p q i j = j

pub run_loop-Reach :
    {n : ℕ} (rounds : List Round) (s : WebServer)
    → LoopFresh rounds s
    → Reach n s
    → Reach n (run_loop rounds s).0
unfolding run_loop
run_loop-Reach [] s f r = r
run_loop-Reach (fails ∷ rounds) s f r = r
run_loop-Reach (interrupts ∷ rounds) s f r =
    pick-Reach s.is_running_ (run_loop rounds s) (s, []) (run_loop-Reach rounds s f r) r
run_loop-Reach (wakes ts ∷ rounds) s f r =
    let rest = run_loop rounds (turns ts s).0 in
    pick-Reach s.is_running_ (rest.0, (turns ts s).1 ++ rest.1) (s, [])
      (run_loop-Reach rounds (turns ts s).0 f.1 (turns-Reach ts s f.0 r)) r
