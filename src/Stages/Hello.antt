-- ===== src/Stages/Hello.antt =====
-- IO-Models/Webserver_Basic.cpp: the server before HTTP, which answers every request alike. Its client
-- and its loop are those of the first server.
use cpp_web_server.Base.{
  ℕ, ◌≡◌, refl, sym, ap, ◌∙◌, true, false, Option, some, List, [], ◌∷◌, ◌++◌, arith,
}
use cpp_web_server.Kernel.{Syscall, send}
use cpp_web_server.Text.{Bytes, text}
use cpp_web_server.Text.Find.{crlf}
use cpp_web_server.Stages.Basic
use cpp_web_server.Stages.Loop.{Stage, Event}
use cpp_web_server.Stages.Loop.Reach.{Stuck, Laws}
use cpp_web_server.Stages.Reply.{rearm}
use cpp_web_server.Stages.Servers.{Setup, Running, serve}
use cpp_web_server.Stages.Watch.{disarmed, seen, parked}

abbrev pub hello : Bytes
hello = text "HTTP/1.1 200 OK" ++ (crlf ++ (crlf ++ text "<h1>Hello</h1>"))

unfoldable pub handle_client : ℕ → Basic.ClientState → Basic.ClientState × List Syscall
handle_client fd c = (record c { buffer = [] }, send fd hello ∷ rearm fd ∷ [])

abbrev pub hello_handle :
    ℕ → Basic.ClientState → Unit {0} → Option (Basic.ClientState × Unit {0} × List Syscall)
hello_handle fd c e = let (c', calls) = handle_client fd c in some (c', e, calls)

abbrev pub hello_stage : Stage Basic.ClientState (Unit {0})
hello_stage = record {
  fresh = λ fd c. record { fd = fd; buffer = [] };
  buffer = λ c. c.buffer;
  set_buffer = λ b c. record c { buffer = b };
  on_empty = λ fd. [];
  handle = hello_handle;
}

unfoldable pub hello_main :
    Setup → List (Option (List Event)) → Option (Running Basic.ClientState (Unit {0}))
unfolding serve
hello_main k waits =
    serve hello_stage k waits
      (record { users = λ _. record { fd = 0; buffer = [] }; tasks = []; shared = tt })

-- It is stuck only where nothing has come.
abbrev pub hello_stuck : Stuck Basic.ClientState
hello_stuck = record { stuck = λ c. false; empty_stuck = true }

hello_calls :
    (fd : ℕ) (c d : Basic.ClientState) (e f : Unit {0}) {calls : List Syscall}
    → hello_handle fd c e ≡ some (d, f, calls)
    → send fd hello ∷ rearm fd ∷ [] ≡ calls
unfolding handle_client
hello_calls fd c d e f m = ground (arith, m)

pub hello_stage-Laws : Laws hello_stage hello_stuck
hello_stage-Laws = record {
  empty_other = λ fd i w n. refl;
  empty_self = λ fd. refl;
  handle_other = λ fd i c d e f calls w m n.
      ap (λ cs. seen i cs w) (sym (hello_calls fd c d e f m)) ∙ ground (arith, n);
  handle_self = λ fd c d e f calls m.
      ap (λ cs. parked (seen fd cs disarmed)) (sym (hello_calls fd c d e f m)) ∙ ground arith;
}
