-- ===== src/Server/Loop/Sigterm.antt =====
-- WebServer_Proj/WebServer: the batch in which SIGTERM comes is the last.
use cpp_web_server.Base.{◌≡◌, ap, ◌∙◌, true, false, List, ◌∷◌, ◌++◌, append-nil, arith}
use cpp_web_server.Timer.{sigterm}
use cpp_web_server.Timer.Registry.{listed}
use cpp_web_server.Server.{WebServer, Input, dispatch, handle_timer_, is_fd}
use cpp_web_server.Server.Loop.{Turn, event_turn, turns, Round, wakes, run_loop}
use cpp_web_server.Server.Loop.Off.{IsOff, handle_timer_-running, turns-IsOff, turns-append}
use cpp_web_server.Server.Loop.Made.{stopped_loop, running_loop}

-- On a running server `epoll_wait` gives a batch in which, after the turns `before`, an event says that
-- the pipe is readable, on a descriptor that is not the listening one, and SIGTERM is among the
-- signals read. Then the rest of the batch, and the workers' turns beside it, are still handled, and
-- no later round: whatever it would bring, the run makes exactly the batch's turns, and leaves the
-- server not running.
pub run_loop-sigterm :
    (before : List Turn) (i : Input) (after : List Turn) (rounds : List Round) (s : WebServer)
    → s.is_running_ ≡ true
    → is_fd (turns before s).0.listen_fd_ i.fd ≡ false
    → is_fd (turns before s).0.timer_.pipefd_0 i.fd ≡ true
    → i.events.epollin ≡ true
    → listed sigterm i.signals ≡ true
    → (run_loop (wakes (before ++ event_turn i ∷ after) ∷ rounds) s
        ≡ turns (before ++ event_turn i ∷ after) s)
      × ((turns (before ++ event_turn i ∷ after) s).0.is_running_ ≡ false)
run_loop-sigterm before i after rounds s on l p e t = (
  running_loop batch rounds s on
      ∙ ap (λ h. (h.0, (turns batch s).1 ++ h.1)) (stopped_loop rounds (turns batch s).0 off)
      ∙ ap (λ calls. ((turns batch s).0, calls)) (append-nil (turns batch s).1),
  off,
)
  where
    batch : List Turn
    batch = before ++ event_turn i ∷ after

    came : WebServer
    came = (turns before s).0

    handled : (dispatch i came).0 ≡ (handle_timer_ i.now i.signals came).0
    handled = unfold dispatch in ground arith

    off_here : IsOff (dispatch i came).0
    off_here =
        ap (λ d. d.is_running_) handled ∙ handle_timer_-running i.now i.signals came ∙ ground arith

    off : IsOff (turns batch s).0
    off =
        ap (λ h. h.0.is_running_) (turns-append before (event_turn i ∷ after) s)
        ∙ (unfold turns in turns-IsOff after (dispatch i came).0 off_here)
