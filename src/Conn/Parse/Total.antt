-- ===== src/Conn/Parse/Total.antt =====
-- WebServer_Proj/HttpConn: `parse_request` stops on every input, and what it leaves alone.
use cpp_web_server.Base.{ℕ, zero, suc, ◌+◌, ◌-◌, ◌≤◌, ◌<◌, ◌≡◌, ◌≢◌, refl, ◌∙◌, length, arith}
use cpp_web_server.Conn.{HttpConn}
use cpp_web_server.Conn.Parse.{
  Flow, again, returns, throws, parse_round, parse_go, parse_loop, parse_request, Outcome,
  out_of_fuel,
}
use cpp_web_server.Conn.Parse.Round.{Untouched, Advances, parse_round-Advances}

-- What the loop gives: it has not run out of fuel, the position stays within the buffer, and
-- nothing outside the parser's fields has changed.
pub record Parsed (c : HttpConn) (r : Outcome × HttpConn) : Type 0 where
  pub ends : r.0 ≢ out_of_fuel
  pub kept : Untouched c r.1
  pub forward : c.m_checked_idx ≤ r.1.m_checked_idx
  pub within : r.1.m_checked_idx ≤ length r.1.m_read_buf

Parsed-later :
    (c d : HttpConn) (r : Outcome × HttpConn)
    → Untouched c d
    → c.m_checked_idx ≤ d.m_checked_idx
    → Parsed d r
    → Parsed c r
Parsed-later c d r u lo p = record {
  ends = p.ends;
  kept = ground arith;
  forward = ground arith;
  within = p.within;
}

pub parse_loop-Parsed :
    (fuel : ℕ) (c : HttpConn)
    → c.m_checked_idx ≤ length c.m_read_buf
    → length c.m_read_buf - c.m_checked_idx < fuel
    → Parsed c (parse_loop fuel c)
unfolding parse_loop
parse_loop-Parsed zero c h m = elim m [ ]
parse_loop-Parsed (suc fuel) c h m =
    go (parse_loop-Parsed fuel) (parse_round c) (parse_round-Advances c h)
  where
    go :
        ((d : HttpConn)
          → d.m_checked_idx ≤ length d.m_read_buf
          → length d.m_read_buf - d.m_checked_idx < fuel
          → Parsed d (parse_loop fuel d))
        → (f : Flow) → Advances c f
        → Parsed c (parse_go (parse_loop fuel) f)
    go ih (again d) (u, lo, hi) =
        Parsed-later c d (parse_loop fuel d) u (omega arith)
          (ih d (rw u.same_buf hi) (rw u.same_buf (omega arith)))
    go ih (returns code d) (u, lo, hi) = ground arith
    go ih (throws e d) (u, lo, hi) = ground arith

-- Called with its position within the buffer, `parse_request` stops, leaves the position within the
-- buffer and no earlier than it was, and writes neither the descriptor, the read and write buffers,
-- the mapping, the number of vectors, nor the number of bytes to send.
pub parse_request-Parsed :
    (c : HttpConn) → c.m_checked_idx ≤ length c.m_read_buf → Parsed c (parse_request c)
unfolding parse_request
parse_request-Parsed c h = parse_loop-Parsed (length c.m_read_buf + 2) c h (omega arith)

-- More fuel than the loop needs makes no difference.
pub parse_loop-fuel :
    (f g : ℕ) (c : HttpConn)
    → c.m_checked_idx ≤ length c.m_read_buf
    → length c.m_read_buf - c.m_checked_idx < f
    → length c.m_read_buf - c.m_checked_idx < g
    → parse_loop f c ≡ parse_loop g c
unfolding parse_loop
parse_loop-fuel zero g c h m n = elim m [ ]
parse_loop-fuel (suc f) zero c h m n = elim n [ ]
parse_loop-fuel (suc f) (suc g) c h m n =
    go (parse_loop-fuel f g) (parse_round c) (parse_round-Advances c h)
  where
    go :
        ((d : HttpConn)
          → d.m_checked_idx ≤ length d.m_read_buf
          → length d.m_read_buf - d.m_checked_idx < f
          → length d.m_read_buf - d.m_checked_idx < g
          → parse_loop f d ≡ parse_loop g d)
        → (r : Flow) → Advances c r
        → parse_go (parse_loop f) r ≡ parse_go (parse_loop g) r
    go ih (again d) (u, lo, hi) =
        ih d (rw u.same_buf hi) (rw u.same_buf (omega arith)) (rw u.same_buf (omega arith))
    go ih (returns code d) a = refl
    go ih (throws e d) a = refl

-- A round with enough fuel, and then the rest with the buffer's length for fuel.
parse_go-fuel :
    (n : ℕ) (c : HttpConn) (r : Flow)
    → length c.m_read_buf ≡ n
    → Advances c r
    → parse_go (parse_loop (suc n)) r ≡ parse_go parse_request r
unfolding parse_request
parse_go-fuel n c (again d) e (u, lo, hi) =
    parse_loop-fuel (suc n) (length d.m_read_buf + 2) d (rw u.same_buf hi)
      (rw u.same_buf (omega arith)) (omega arith)
parse_go-fuel n c (returns code d) e a = refl
parse_go-fuel n c (throws v d) e a = refl

parse_loop-suc :
    (n : ℕ) (c : HttpConn) → parse_loop (n + 2) c ≡ parse_go (parse_loop (suc n)) (parse_round c)
unfolding parse_loop
parse_loop-suc n c = let e : n + 2 ≡ suc (suc n) = omega arith in rw e

parse_request_round :
    (c : HttpConn)
    → parse_request c ≡ parse_go (parse_loop (suc (length c.m_read_buf))) (parse_round c)
unfolding parse_request
parse_request_round c = parse_loop-suc (length c.m_read_buf) c

-- The loop of the source, with no fuel: a round, and again.
pub parse_request_lem :
    (c : HttpConn)
    → c.m_checked_idx ≤ length c.m_read_buf
    → parse_request c ≡ parse_go parse_request (parse_round c)
parse_request_lem c h =
    parse_request_round c
    ∙ parse_go-fuel (length c.m_read_buf) c (parse_round c) refl (parse_round-Advances c h)
