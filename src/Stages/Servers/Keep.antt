-- ===== src/Stages/Servers/Keep.antt =====
-- HTTP-Protocol: the three servers keep the laws of the loop. The first loses a client whose first
-- line is not whole, or on which nothing has come.
use cpp_web_server.Base.{
  ℕ, ◌==◌, ◌≡◌, refl, sym, ap, ◌∙◌, true, false, not, Option, none, some, List, [], ◌∷◌,
  if◌then◌else◌, arith,
}
use cpp_web_server.Kernel.{Syscall}
use cpp_web_server.Text.{Bytes, find, is_found, contains, c_str}
use cpp_web_server.Text.Find.{crlf}
use cpp_web_server.Conn.Reply.{Host, file_path}
use cpp_web_server.Stages.{ClientState}
use cpp_web_server.Stages.Parse.{parse_http_request, body_substr}
use cpp_web_server.Stages.Second.{parse_second}
use cpp_web_server.Stages.Basic
use cpp_web_server.Stages.Handle.Settles.{
  leaves_stuck, handle_second-Settles, handle_client-Settles,
}
use cpp_web_server.Stages.Loop.Reach.{Laws, Stuck}
use cpp_web_server.Stages.Reply.{rearm}
use cpp_web_server.Stages.Servers.{first_done, first_stage, second_stage, third_stage}
use cpp_web_server.Stages.Watch.{Watch, disarmed, seen, seen-append, parked}

rearm_other : (fd i : ℕ) (w : Watch) → (fd == i) ≡ false → seen i (rearm fd ∷ []) w ≡ w
rearm_other fd i w n = ground (arith, n)

rearm_self : (fd : ℕ) (w : Watch) → parked (seen fd (rearm fd ∷ []) w) ≡ 0
rearm_self fd w = ground arith

reply-seen :
    (host : Host) (garbage fd i : ℕ) (url : Bytes) (w : Watch)
    → seen i (Basic.reply host garbage fd url) w ≡ w
reply-seen host garbage fd i url w = go (host.stat (c_str (file_path url)))
  where
    go : (o : Option ℕ) → seen i (Basic.stat_reply host garbage fd (c_str (file_path url)) o) w ≡ w
    go none = refl
    go (some size) = refl

respond_other :
    (host : Host) (garbage fd i : ℕ) (o : Option ℕ) (c : Basic.ClientState) (w : Watch)
    → (fd == i) ≡ false
    → seen i (Basic.respond host garbage fd o c).1 w ≡ w
respond_other host garbage fd i none c w n = refl
respond_other host garbage fd i (some k) c w n =
    seen-append i (Basic.reply host garbage fd _) (rearm fd ∷ []) w
    ∙ ap (seen i (rearm fd ∷ [])) (reply-seen host garbage fd i _ w)
    ∙ rearm_other fd i w n

respond_self :
    (host : Host) (garbage fd : ℕ) (o : Option ℕ) (c : Basic.ClientState)
    → parked (seen fd (Basic.respond host garbage fd o c).1 disarmed)
      ≡ (if not (is_found o) then 1 else 0)
respond_self host garbage fd none c = refl
respond_self host garbage fd (some k) c =
    ap parked (seen-append fd (Basic.reply host garbage fd _) (rearm fd ∷ []) disarmed)
    ∙ rearm_self fd _

first_calls :
    (r : Basic.ClientState × List Syscall) {d : Basic.ClientState} {f : Unit {0}}
    {calls : List Syscall}
    → ◌≡◌ {A = Option (Basic.ClientState × Unit {0} × List Syscall)}
        (first_done r)
        (some (d, f, calls))
    → r.1 ≡ calls
first_calls r e = ground arith

-- A task of the first server is stuck where the buffer holds no CR LF.
abbrev pub first_stuck : Stuck Basic.ClientState
first_stuck = record { stuck = λ c. not (contains crlf c.buffer); empty_stuck = true }

abbrev pub second_stuck : Stuck (ClientState (Unit {0}))
second_stuck = record { stuck = λ c. leaves_stuck (parse_second c).0; empty_stuck = false }

abbrev pub third_stuck : Stuck (ClientState Bytes)
third_stuck = record {
  stuck = λ c. leaves_stuck (parse_http_request body_substr c).0;
  empty_stuck = false;
}

pub first_stage-Laws : (host : Host) (garbage : ℕ) → Laws (first_stage host garbage) first_stuck
first_stage-Laws host garbage = record {
  empty_other = λ fd i w n. refl;
  empty_self = λ fd. refl;
  handle_other = λ fd i c d e f calls w m n.
      ap (λ cs. seen i cs w) (sym (first_calls (Basic.handle_client host garbage fd c) m))
      ∙ (unfold Basic.handle_client in respond_other host garbage fd i (find crlf c.buffer) c w n);
  handle_self = λ fd c d e f calls m.
      ap (λ cs. parked (seen fd cs disarmed))
        (sym (first_calls (Basic.handle_client host garbage fd c) m))
      ∙ (unfold Basic.handle_client in respond_self host garbage fd (find crlf c.buffer) c);
}

pub second_stage-Laws : (host : Host) → Laws (second_stage host) second_stuck
second_stage-Laws host = record {
  empty_other = λ fd i w n. rearm_other fd i w n;
  empty_self = λ fd. rearm_self fd disarmed;
  handle_other =
      λ fd i c d e f calls w m n. (handle_second-Settles host fd c e).others d f calls m i w n;
  handle_self = λ fd c d e f calls m. (handle_second-Settles host fd c e).self d f calls m;
}

pub third_stage-Laws : (host : Host) → Laws (third_stage host) third_stuck
third_stage-Laws host = record {
  empty_other = λ fd i w n. rearm_other fd i w n;
  empty_self = λ fd. rearm_self fd disarmed;
  handle_other =
      λ fd i c d e f calls w m n. (handle_client-Settles host fd c e).others d f calls m i w n;
  handle_self = λ fd c d e f calls m. (handle_client-Settles host fd c e).self d f calls m;
}
