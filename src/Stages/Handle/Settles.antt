-- ===== src/Stages/Handle/Settles.antt =====
-- HTTP-Protocol: every task of the second and the third server arms its client again or closes it,
-- unless the parser let an exception out.
use cpp_web_server.Base.{
  ℕ, ◌==◌, ◌&&◌, ◌≡◌, refl, sym, ap, ◌∙◌, Bool, true, false, Option, none, some, List, [],
  if◌then◌else◌, Bool-cases, inl, inr, arith,
}
use cpp_web_server.Kernel.{Syscall}
use cpp_web_server.Text.{Bytes, text, same, c_str}
use cpp_web_server.Conn.{no_request, get_request, bad_request, internal_error}
use cpp_web_server.Conn.Reply.{Host, default_url, file_path}
use cpp_web_server.Stages.{ClientState, Outcome, returned, thrown, out_of_fuel}
use cpp_web_server.Stages.Parse.{parse_http_request, body_substr}
use cpp_web_server.Stages.Second.{parse_second}
use cpp_web_server.Stages.Pool.{MySqlPool}
use cpp_web_server.Stages.Reply.{
  stat_reply, serve_file, settle, parse_post_data, send_login_response,
}
use cpp_web_server.Stages.Handle.{
  replied, respond, file_reply, handle_second, answer_login, if_login, login_or_file, handle_client,
}
use cpp_web_server.Stages.Watch.{Watch, disarmed, seen, parked, seen-append}

-- The outcomes after which a task makes no call.
abbrev pub leaves_stuck : Outcome → Bool
leaves_stuck (returned internal_error) = true
leaves_stuck (returned _) = false
leaves_stuck _ = true

module _ {B : Type 0} where
  settle_other :
      (no_data : B) (fd i : ℕ) (c : ClientState B) (w : Watch)
      → (fd == i) ≡ false
      → seen i (settle no_data fd c).1 w ≡ w
  unfolding settle
  settle_other no_data fd i c w n = ground arith

  settle_self :
      (no_data : B) (fd : ℕ) (c : ClientState B) (w : Watch)
      → parked (seen fd (settle no_data fd c).1 w) ≡ 0
  unfolding settle
  settle_self no_data fd c w = ground arith

module _ {B E : Type 0} where
  -- The calls of a task: on its own descriptor they leave `k` disarmed, and they touch no other.
  pub record Settles (fd k : ℕ) (o : Option (ClientState B × E × List Syscall)) : Type 0 where
    pub others :
        (d : ClientState B) (f : E) (calls : List Syscall)
        → o ≡ some (d, f, calls)
        → (i : ℕ) (w : Watch) → (fd == i) ≡ false
        → seen i calls w ≡ w
    pub self :
        (d : ClientState B) (f : E) (calls : List Syscall)
        → o ≡ some (d, f, calls)
        → parked (seen fd calls disarmed) ≡ k

  none-Settles : (fd k : ℕ) → Settles fd k none
  none-Settles fd k = record {
    others = λ d f calls e. absurd (ground arith);
    self = λ d f calls e. absurd (ground arith);
  }

  some-Settles :
      (fd k : ℕ) (c : ClientState B) (e : E) (calls : List Syscall)
      → ((i : ℕ) (w : Watch) → (fd == i) ≡ false → seen i calls w ≡ w)
      → parked (seen fd calls disarmed) ≡ k
      → Settles fd k (some (c, e, calls))
  some-Settles fd k c e calls o s = record {
    others = λ d f more m i w n. ap (λ cs. seen i cs w) (sym (calls_of d f more m)) ∙ o i w n;
    self = λ d f more m. ap (λ cs. parked (seen fd cs disarmed)) (sym (calls_of d f more m)) ∙ s;
  }
    where
      calls_of :
          (d : ClientState B) (f : E) (more : List Syscall)
          → ◌≡◌ {A = Option (ClientState B × E × List Syscall)}
              (some (c, e, calls))
              (some (d, f, more))
          → calls ≡ more
      calls_of d f more m = ground arith

  -- A reply only sends.
  abbrev pub Quiet : Option (ClientState B × E × List Syscall) → Type 0
  Quiet none = Unit {0}
  Quiet (some (c, e, calls)) = (i : ℕ) (w : Watch) → seen i calls w ≡ w

  replied-Settles :
      (no_data : B) (fd : ℕ) (o : Option (ClientState B × E × List Syscall))
      → Quiet o
      → Settles fd 0 (replied no_data fd o)
  replied-Settles no_data fd none q = none-Settles fd 0
  replied-Settles no_data fd (some (c, e, calls)) q =
      some-Settles fd 0 _ e _
        (λ i w n.
          seen-append i calls (settle no_data fd c).1 w
          ∙ ap (seen i (settle no_data fd c).1) (q i w)
          ∙ settle_other no_data fd i c w n)
        (ap parked (seen-append fd calls (settle no_data fd c).1 disarmed)
          ∙ settle_self no_data fd c _)

  pub respond-Settles :
      (no_data : B) (fd : ℕ) (reply : ClientState B → E → Option (ClientState B × E × List Syscall))
      → ((c : ClientState B) (e : E) → Quiet (reply c e))
      → (ret : Outcome) (c : ClientState B) (e : E)
      → Settles fd (if leaves_stuck ret then 1 else 0) (respond no_data fd reply ret c e)
  respond-Settles no_data fd reply q (returned no_request) c e =
      some-Settles fd 0 c e _ (λ i w n. ground (arith, n)) (ground arith)
  respond-Settles no_data fd reply q (returned bad_request) c e =
      some-Settles fd 0 c e _ (λ i w n. ground (arith, n)) (ground arith)
  respond-Settles no_data fd reply q (returned get_request) c e =
      replied-Settles no_data fd (reply c e) (q c e)
  respond-Settles no_data fd reply q (returned internal_error) c e =
      some-Settles fd 1 c e [] (λ i w n. refl) refl
  respond-Settles no_data fd reply q (thrown x) c e = some-Settles fd 1 c e [] (λ i w n. refl) refl
  respond-Settles no_data fd reply q out_of_fuel c e = some-Settles fd 1 c e [] (λ i w n. refl) refl

stat_reply-seen :
    {B : Type 0} (host : Host) (fd : ℕ) (c : ClientState B) (o : Option ℕ) (i : ℕ) (w : Watch)
    → seen i (stat_reply host fd c o) w ≡ w
stat_reply-seen host fd c none i w = refl
stat_reply-seen host fd c (some size) i w = refl

pub serve_file-seen :
    {B : Type 0} (host : Host) (fd : ℕ) (c : ClientState B) (i : ℕ) (w : Watch)
    → seen i (serve_file host fd c).1 w ≡ w
unfolding serve_file
serve_file-seen host fd c i w =
    let c' = record c { url = default_url c.url } in
    stat_reply-seen host fd c' (host.stat (c_str (file_path c'.url))) i w

file_reply-Quiet :
    (host : Host) (fd : ℕ) (c : ClientState (Unit {0})) (e : Unit {0})
    → Quiet (file_reply host fd c e)
file_reply-Quiet host fd c e i w = serve_file-seen host fd c i w

login_or_file-Quiet :
    (host : Host) (fd : ℕ) (c : ClientState Bytes) (p : MySqlPool)
    → Quiet (login_or_file host fd c p)
login_or_file-Quiet host fd c p =
    elim (Bool-cases (same c.method (text "POST") && same c.url (text "/login"))) [
      | inl e ↦ rw e (go (if_login host (parse_post_data c) p))
      | inr e ↦ rw e (serve_file-seen host fd c)
    ]
  where
    go : (o : Option (Bool × MySqlPool)) → Quiet (answer_login fd c o)
    go none = tt
    go (some (success, p')) = unfold send_login_response in λ i w. refl

-- A task of the second server touches no other descriptor than its client's; it leaves that one
-- armed or closed, unless the parser let an exception out, and then disarmed.
pub handle_second-Settles :
    (host : Host) (fd : ℕ) (c : ClientState (Unit {0})) (e : Unit {0})
    → Settles fd (if leaves_stuck (parse_second c).0 then 1 else 0) (handle_second host fd c e)
unfolding handle_second
handle_second-Settles host fd c e =
    respond-Settles tt fd (file_reply host fd) (file_reply-Quiet host fd) (parse_second c).0
      (parse_second c).1 e

-- A task of the third server touches no other descriptor than its client's; it leaves that one
-- armed or closed, unless the parser let an exception out, and then disarmed.
pub handle_client-Settles :
    (host : Host) (fd : ℕ) (c : ClientState Bytes) (p : MySqlPool)
    → Settles fd
        (if leaves_stuck (parse_http_request body_substr c).0 then 1 else 0)
        (handle_client host fd c p)
unfolding handle_client
handle_client-Settles host fd c p =
    respond-Settles [] fd (login_or_file host fd) (login_or_file-Quiet host fd)
      (parse_http_request body_substr c).0 (parse_http_request body_substr c).1 p
