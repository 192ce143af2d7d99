-- ===== src/Server/Loop/Made.antt =====
-- WebServer_Proj/WebServer: which rounds the loop makes, and what `start` comes to.
use cpp_web_server.Base.{
  ℕ, ◌≡◌, refl, sym, ap, ◌∙◌, subst, Bool, true, false, List, [], ◌∷◌, ◌++◌, Bool-cases, inl, inr,
  if◌then◌else◌,
}
use cpp_web_server.Kernel.{Syscall}
use cpp_web_server.Server.{WebServer, Handled, new_server, Sockets, init_socket_}
use cpp_web_server.Server.Invariant.{Reach, created, set_up, runs}
use cpp_web_server.Server.Loop.{Turn, turns, Round, wakes, interrupts, fails, run_loop, start}
use cpp_web_server.Server.Loop.Fresh.{pick-Reach, LoopFresh, run_loop-Reach}
use cpp_web_server.Server.Loop.Off.{IsOff, turns-append}

pub stopped_loop :
    (rounds : List Round) (s : WebServer) → s.is_running_ ≡ false → run_loop rounds s ≡ (s, [])
unfolding run_loop
stopped_loop [] s e = refl
stopped_loop (fails ∷ rounds) s e = refl
stopped_loop (interrupts ∷ rounds) s e = ap (λ b. if b then run_loop rounds s else (s, [])) e
stopped_loop (wakes ts ∷ rounds) s e =
    let rest = run_loop rounds (turns ts s).0 in
    ap (λ b. if b then (rest.0, (turns ts s).1 ++ rest.1) else (s, [])) e

pub running_loop :
    (ts : List Turn) (rounds : List Round) (s : WebServer)
    → s.is_running_ ≡ true
    → run_loop (wakes ts ∷ rounds) s
      ≡ ((run_loop rounds (turns ts s).0).0, (turns ts s).1 ++ (run_loop rounds (turns ts s).0).1)
unfolding run_loop
running_loop ts rounds s e =
    let rest = run_loop rounds (turns ts s).0 in
    ap (λ b. if b then (rest.0, (turns ts s).1 ++ rest.1) else (s, [])) e

pub running_on :
    (rounds : List Round) (s : WebServer)
    → s.is_running_ ≡ true
    → run_loop (interrupts ∷ rounds) s ≡ run_loop rounds s
unfolding run_loop
running_on rounds s e = ap (λ b. if b then run_loop rounds s else (s, [])) e

pub failed_loop : (rounds : List Round) (s : WebServer) → run_loop (fails ∷ rounds) s ≡ (s, [])
unfolding run_loop
failed_loop rounds s = refl

-- The turns of the rounds.
abbrev pub all_turns : List Round → List Turn
all_turns [] = []
all_turns (wakes ts ∷ rounds) = ts ++ all_turns rounds
all_turns (_ ∷ rounds) = all_turns rounds

-- Each of the rounds finds the server running, and none is an error.
abbrev pub FindRunning : List Round → WebServer → Type 0
FindRunning [] s = Unit {0}
FindRunning (wakes ts ∷ rounds) s = (s.is_running_ ≡ true) × FindRunning rounds (turns ts s).0
FindRunning (interrupts ∷ rounds) s = (s.is_running_ ≡ true) × FindRunning rounds s
FindRunning (fails ∷ rounds) s = ⊥

-- Why the loop makes no further round: the server does not run, there is none, or it is an error.
abbrev pub IsOver : List Round → WebServer → Type 0
IsOver [] s = Unit {0}
IsOver (fails ∷ rounds) s = Unit {0}
IsOver (_ ∷ rounds) s = s.is_running_ ≡ false

-- The rounds fall into those that are made, whole and in order, and those that are not.
pub record Looped (rounds : List Round) (s : WebServer) (h : Handled) : Type 0 where
  pub made : List Round
  pub left : List Round
  pub split : rounds ≡ made ++ left
  pub running : FindRunning made s
  pub ends : h ≡ turns (all_turns made) s
  pub over : IsOver left h.0

IsOver-off : (rounds : List Round) (s : WebServer) → IsOff s → IsOver rounds s
IsOver-off [] s off = tt
IsOver-off (fails ∷ rounds) s off = tt
IsOver-off (interrupts ∷ rounds) s off = off
IsOver-off (wakes ts ∷ rounds) s off = off

none_made :
    (rounds : List Round) (s : WebServer) (h : Handled)
    → h ≡ (s, [])
    → IsOver rounds s
    → Looped rounds s h
unfolding turns
none_made rounds s h e o = record {
  made = [];
  left = rounds;
  split = refl;
  running = tt;
  ends = e;
  over = subst (λ k. IsOver rounds k.0) (sym e) o;
}

run_loop-Looped : (rounds : List Round) (s : WebServer) → Looped rounds s (run_loop rounds s)
run_loop-Looped [] s = none_made [] s _ (unfold run_loop in refl) tt
run_loop-Looped (fails ∷ rounds) s = none_made (fails ∷ rounds) s _ (failed_loop rounds s) tt
run_loop-Looped (interrupts ∷ rounds) s = elim (Bool-cases s.is_running_) [
  | inl on ↦
      let l = run_loop-Looped rounds s in
      record {
        made = interrupts ∷ l.made;
        left = l.left;
        split = ap (λ r. interrupts ∷ r) l.split;
        running = (on, l.running);
        ends = running_on rounds s on ∙ l.ends;
        over = subst (λ k. IsOver l.left k.0) (sym (running_on rounds s on)) l.over;
      }
  | inr off ↦ none_made (interrupts ∷ rounds) s _ (stopped_loop (interrupts ∷ rounds) s off) off
]
run_loop-Looped (wakes ts ∷ rounds) s = elim (Bool-cases s.is_running_) [
  | inl on ↦
      let l = run_loop-Looped rounds (turns ts s).0 in
      record {
        made = wakes ts ∷ l.made;
        left = l.left;
        split = ap (λ r. wakes ts ∷ r) l.split;
        running = (on, l.running);
        ends =
            running_loop ts rounds s on
            ∙ ap (λ h. (h.0, (turns ts s).1 ++ h.1)) l.ends
            ∙ sym (turns-append ts (all_turns l.made) s);
        over = subst (λ k. IsOver l.left k.0) (sym (running_loop ts rounds s on)) l.over;
      }
  | inr off ↦ none_made (wakes ts ∷ rounds) s _ (stopped_loop (wakes ts ∷ rounds) s off) off
]

-- What `start` comes to, by whether the socket was set up.
abbrev pub Started : Bool → List Round → Handled → Handled → Type 0
Started false rounds opening h = h ≡ opening
Started true rounds opening h =
    (k : Handled) × Looped rounds (record opening.0 { is_running_ = true }) k
    × (h ≡ (k.0, opening.1 ++ k.1))

-- `start` on a new server, where no connection is accepted on an open descriptor, stops behind
-- init_socket_ where that fails. Otherwise it makes rounds, whole and in order, each of which finds the
-- server running, until the server does not run, epoll_wait fails or the rounds given are over; its
-- state and calls are those of the turns of these rounds. The state is one that the server comes to by
-- events, worker steps and tasks.
pub start-Started :
    (n epoll_fd : ℕ) (k : Sockets) (rounds : List Round)
    → LoopFresh rounds (record (init_socket_ epoll_fd k (new_server n).0).1 { is_running_ = true })
    → Started
        (init_socket_ epoll_fd k (new_server n).0).0
        rounds
        ((init_socket_ epoll_fd k (new_server n).0).1, (init_socket_ epoll_fd k (new_server n).0).2)
        (start epoll_fd k rounds (new_server n).0)
      × Reach n (start epoll_fd k rounds (new_server n).0).0
unfolding start
start-Started n epoll_fd k rounds f =
    (go setting.0, pick-Reach setting.0 _ _ reached (set_up epoll_fd k created))
  where
    setting : Bool × WebServer × List Syscall
    setting = init_socket_ epoll_fd k (new_server n).0

    begun : WebServer
    begun = record setting.1 { is_running_ = true }

    reached : Reach n (run_loop rounds begun).0
    reached = run_loop-Reach rounds begun f (runs (set_up epoll_fd k created))

    looped : Handled
    looped = ((run_loop rounds begun).0, setting.2 ++ (run_loop rounds begun).1)

    go :
        (ok : Bool)
        → Started ok rounds (setting.1, setting.2) (if ok then looped else (setting.1, setting.2))
    go true = (run_loop rounds begun, run_loop-Looped rounds begun, refl)
    go false = refl
