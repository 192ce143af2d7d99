-- ===== src/Stages/Parse/Same.antt =====
-- HTTP-Protocol and WebServer_Proj/HttpConn: the parser of the third server and the one of the last.
use cpp_web_server.Base.{
  ℕ, zero, suc, ◌+◌, ◌^◌, ◌<◌, ◌≡◌, ◌≢◌, refl, sym, subst, Option, none, some, pos, length,
  length-drop, drop, Option-cases, inl, inr, arith,
}
use cpp_web_server.Text.{Bytes, find}
use cpp_web_server.Text.Find.{crlf, find-le}
use cpp_web_server.Conn
use cpp_web_server.Conn.{
  HttpConn, new_conn, CheckState, check_state_requestline, check_state_header, check_state_content,
}
use cpp_web_server.Conn.Parse
use cpp_web_server.Conn.Parse.{to_size, parse_request}
use cpp_web_server.Conn.Parse.Total.{parse_request-Parsed}
use cpp_web_server.Stages.Parse.Lines.{
  to_conn, IsInRange, SameFlow, content-SameFlow, check_line-SameFlow,
}
use cpp_web_server.Stages.{ClientState, to_int, of_stoi, Outcome, returned, thrown, out_of_fuel}
use cpp_web_server.Stages.Parse.{
  Flow, again, returns, throws, get_line, round_on, parse_round, parse_go, parse_loop,
  parse_http_request, body_substr,
}

-- The same result, on the same state, which is in range still.
abbrev pub SameRun : Outcome × ClientState Bytes → Conn.Parse.Outcome × HttpConn → Type 0
SameRun (returned code, c) (Conn.Parse.returned k, h) = (to_conn c ≡ h) × IsInRange c × (code ≡ k)
SameRun (thrown e, c) (Conn.Parse.thrown v, h) = (to_conn c ≡ h) × IsInRange c × (e ≡ of_stoi v)
SameRun (out_of_fuel, c) (Conn.Parse.out_of_fuel, h) = to_conn c ≡ h
SameRun _ _ = ⊥

-- The position behind a line that is found is one of the buffer, and no `int` overflows.
to_int_small : (n : ℕ) → n < 2 ^ 31 → to_int n ≡ pos n
unfolding to_int
to_int_small n h = ground arith

abbrev SameLine : Option (Bytes × ClientState Bytes) → Option (Bytes × HttpConn) → Type 0
SameLine none none = Unit {0}
SameLine (some (line, c)) (some (l, h)) = (line ≡ l) × (to_conn c ≡ h) × IsInRange c
SameLine _ _ = ⊥

get_line-SameLine :
    (c : ClientState Bytes) → IsInRange c → SameLine (get_line c) (Conn.Parse.get_line (to_conn c))
unfolding get_line Conn.Parse.get_line
get_line-SameLine c r = elim (Option-cases (find crlf (drop (to_size c.checked_idx) c.buffer))) [
  | inl e ↦ rw e tt
  | inr (n, e) ↦
      let h : to_size c.checked_idx + n + 2 < 2 ^ 31 = ground (
        arith,
        find-le crlf (drop (to_size c.checked_idx) c.buffer) e,
        length-drop (to_size c.checked_idx) c.buffer,
        r,
      ) in
      rw (e, to_int_small (to_size c.checked_idx + n + 2) h)
        (
          refl,
          refl,
          ground (
            arith,
            find-le crlf (drop (to_size c.checked_idx) c.buffer) e,
            length-drop (to_size c.checked_idx) c.buffer,
          ),
        )
]

no_line-SameFlow :
    (c : ClientState Bytes)
    → IsInRange c
    → SameFlow (round_on body_substr none c) (Conn.Parse.round_on none (to_conn c))
no_line-SameFlow c r = ground (arith, content-SameFlow c r)

line-SameFlow :
    (o : Option (Bytes × ClientState Bytes)) (p : Option (Bytes × HttpConn)) (c : ClientState Bytes)
    → IsInRange c
    → SameLine o p
    → SameFlow (round_on body_substr o c) (Conn.Parse.round_on p (to_conn c))
line-SameFlow none none c r s = no_line-SameFlow c r
line-SameFlow (some (line, d)) (some (l, h)) c r (e, m, rd) =
    rw (sym e, sym m) (check_line-SameFlow d.check_state line d rd)
line-SameFlow none (some _) c r s = elim s [ ]
line-SameFlow (some (line, d)) none c r s = elim s [ ]

parse_round-SameFlow :
    (c : ClientState Bytes)
    → IsInRange c
    → SameFlow (parse_round body_substr c) (Conn.Parse.parse_round (to_conn c))
unfolding parse_round Conn.Parse.parse_round
parse_round-SameFlow c r =
    line-SameFlow (get_line c) (Conn.Parse.get_line (to_conn c)) c r (get_line-SameLine c r)

pub get_line-IsInRange :
    (c : ClientState Bytes) {line : Bytes} {d : ClientState Bytes}
    → IsInRange c
    → get_line c ≡ some (line, d)
    → IsInRange d
get_line-IsInRange c {line} {d} r e =
    go (Conn.Parse.get_line (to_conn c))
      (subst (λ o. SameLine o (Conn.Parse.get_line (to_conn c))) e (get_line-SameLine c r))
  where
    go : (p : Option (Bytes × HttpConn)) → SameLine (some (line, d)) p → IsInRange d
    go none s = elim s [ ]
    go (some (l, h)) s = s.2

pub parse_round-IsInRange :
    (c : ClientState Bytes) {d : ClientState Bytes}
    → IsInRange c
    → parse_round body_substr c ≡ again d
    → IsInRange d
parse_round-IsInRange c {d} r e =
    go (Conn.Parse.parse_round (to_conn c))
      (subst (λ f. SameFlow f (Conn.Parse.parse_round (to_conn c))) e (parse_round-SameFlow c r))
  where
    go : (g : Conn.Parse.Flow) → SameFlow (again d) g → IsInRange d
    go (Conn.Parse.again h) s = s.1
    go (Conn.Parse.returns k h) s = elim s [ ]
    go (Conn.Parse.throws v h) s = elim s [ ]

go-SameRun :
    (loop : ClientState Bytes → Outcome × ClientState Bytes)
    (loop' : HttpConn → Conn.Parse.Outcome × HttpConn)
    → ((d : ClientState Bytes) → IsInRange d → SameRun (loop d) (loop' (to_conn d)))
    → (f : Flow Bytes) (g : Conn.Parse.Flow) → SameFlow f g
    → SameRun (parse_go loop f) (Conn.Parse.parse_go loop' g)
go-SameRun loop loop' ih (again c) (Conn.Parse.again h) (e, r) = rw (sym e) (ih c r)
go-SameRun loop loop' ih (returns code c) (Conn.Parse.returns k h) s = s
go-SameRun loop loop' ih (throws x c) (Conn.Parse.throws v h) s = s
go-SameRun loop loop' ih (again c) (Conn.Parse.returns k h) s = elim s [ ]
go-SameRun loop loop' ih (again c) (Conn.Parse.throws v h) s = elim s [ ]
go-SameRun loop loop' ih (returns code c) (Conn.Parse.again h) s = elim s [ ]
go-SameRun loop loop' ih (returns code c) (Conn.Parse.throws v h) s = elim s [ ]
go-SameRun loop loop' ih (throws x c) (Conn.Parse.again h) s = elim s [ ]
go-SameRun loop loop' ih (throws x c) (Conn.Parse.returns k h) s = elim s [ ]

parse_loop-SameRun :
    (fuel : ℕ) (c : ClientState Bytes)
    → IsInRange c
    → SameRun (parse_loop body_substr fuel c) (Conn.Parse.parse_loop fuel (to_conn c))
unfolding parse_loop Conn.Parse.parse_loop
parse_loop-SameRun zero c r = refl
parse_loop-SameRun (suc fuel) c r =
    go-SameRun (parse_loop body_substr fuel) (Conn.Parse.parse_loop fuel) (parse_loop-SameRun fuel)
      (parse_round body_substr c) (Conn.Parse.parse_round (to_conn c)) (parse_round-SameFlow c r)

SameRun-ends :
    (a : Outcome × ClientState Bytes) (b : Conn.Parse.Outcome × HttpConn)
    → SameRun a b
    → b.0 ≢ Conn.Parse.out_of_fuel
    → a.0 ≢ out_of_fuel
SameRun-ends (returned code, c) b s n e = ground arith
SameRun-ends (thrown x, c) b s n e = ground arith
SameRun-ends (out_of_fuel, c) (Conn.Parse.returned k, h) s n e = s
SameRun-ends (out_of_fuel, c) (Conn.Parse.thrown v, h) s n e = s
SameRun-ends (out_of_fuel, c) (Conn.Parse.out_of_fuel, h) s n e = n refl

-- On a client whose position lies in a buffer shorter than 2 GiB, the third server's parser, which
-- counts in `int`, does what the last server's parser does on the same fields, which counts in
-- `size_t`: it stops, with the same code, or with the same exception of `std::stoi`, and leaves the
-- same fields, in range still; `substr` never throws.
pub parse_http_request-SameRun :
    (c : ClientState Bytes)
    → IsInRange c
    → SameRun (parse_http_request body_substr c) (parse_request (to_conn c))
      × ((parse_http_request body_substr c).0 ≢ out_of_fuel)
parse_http_request-SameRun c r = (
  same,
  SameRun-ends (parse_http_request body_substr c) (parse_request (to_conn c)) same
      (parse_request-Parsed (to_conn c) r.within).ends,
)
  where
    same : SameRun (parse_http_request body_substr c) (parse_request (to_conn c))
    same =
        unfold parse_http_request in
        unfold parse_request in parse_loop-SameRun (length c.buffer + 2) c r

pub parse_http_request-IsInRange :
    (c : ClientState Bytes) → IsInRange c → IsInRange (parse_http_request body_substr c).1
parse_http_request-IsInRange c r =
    let (same, ends) = parse_http_request-SameRun c r in
    go (parse_http_request body_substr c) (parse_request (to_conn c)) same ends
  where
    go :
        (a : Outcome × ClientState Bytes) (b : Conn.Parse.Outcome × HttpConn)
        → SameRun a b
        → a.0 ≢ out_of_fuel
        → IsInRange a.1
    go (out_of_fuel, c) b s n = absurd (n refl)
    go (returned code, c) (Conn.Parse.returned k, h) s n = s.1
    go (returned code, c) (Conn.Parse.thrown v, h) s n = elim s [ ]
    go (returned code, c) (Conn.Parse.out_of_fuel, h) s n = elim s [ ]
    go (thrown x, c) (Conn.Parse.returned k, h) s n = elim s [ ]
    go (thrown x, c) (Conn.Parse.thrown v, h) s n = s.1
    go (thrown x, c) (Conn.Parse.out_of_fuel, h) s n = elim s [ ]
