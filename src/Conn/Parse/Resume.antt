-- ===== src/Conn/Parse/Resume.antt =====
-- WebServer_Proj/HttpConn: a request that comes in pieces is parsed as if it had come at once.
use cpp_web_server.Base.{
  ℕ, zero, suc, ◌+◌, ◌-◌, ◌≤◌, ◌<◌, ◌≡◌, ◌≢◌, refl, sym, ap, ◌∙◌, Option, none, some, length,
  length-append, arith,
}
use cpp_web_server.Text.{Bytes}
use cpp_web_server.Conn.{HttpConn, check_state_content, no_request}
use cpp_web_server.Conn.Parse.{
  get_line, Flow, again, returns, throws, parse_round, parse_go, parse_loop, parse_request, Outcome,
  returned,
}
use cpp_web_server.Conn.Parse.Total.{parse_request_lem}
use cpp_web_server.Conn.Parse.Round.{flow_conn, parse_round-Advances, Advances}
use cpp_web_server.Conn.Parse.Arrive.{
  arrive, arrive_flow, get_line_state, parse_round-arrive, parse_round_wait, check_line-no_request,
  parse_loop_content,
}

abbrev pub resumed : Bytes → Outcome × HttpConn → Outcome × HttpConn
resumed b (returned no_request, d) = parse_request (arrive b d)
resumed b (o, d) = (o, arrive b d)

Rest : ℕ → Bytes → Type 0
Rest fuel b =
    (d : HttpConn)
    → d.m_checked_idx ≤ length d.m_read_buf
    → length d.m_read_buf - d.m_checked_idx < fuel
    → (parse_loop fuel d).1.m_check_state ≢ check_state_content
    → parse_request (arrive b d) ≡ resumed b (parse_loop fuel d)

-- After a round that had a line.
after_round :
    (fuel : ℕ) (b : Bytes) (c : HttpConn) (f : Flow)
    → Rest fuel b
    → Advances c f
    → length c.m_read_buf - c.m_checked_idx < suc fuel
    → f ≢ returns no_request (flow_conn f)
    → (parse_go (parse_loop fuel) f).1.m_check_state ≢ check_state_content
    → parse_go parse_request (arrive_flow b f) ≡ resumed b (parse_go (parse_loop fuel) f)
unfolding Rest
after_round fuel b c (again d) ih (u, lo, hi) m r n =
    ih d (rw u.same_buf hi) (rw u.same_buf (omega arith)) n
after_round fuel b c (returns no_request d) ih a m r n = absurd (r refl)
after_round fuel b c (returns code d) ih a m r n = refl
after_round fuel b c (throws e d) ih a m r n = refl

parse_round-code :
    (c : HttpConn) {line : Bytes} {d : HttpConn}
    → get_line c ≡ some (line, d)
    → c.m_check_state ≢ check_state_content
    → parse_round c ≢ returns no_request (flow_conn (parse_round c))
unfolding parse_round
parse_round-code c {line} {d} e n r =
    n (sym (get_line_state c e) ∙ check_line-no_request d.m_check_state line d _ (rw e at r))

parse_loop-resumed :
    (fuel : ℕ) (b : Bytes) (c : HttpConn)
    → c.m_checked_idx ≤ length c.m_read_buf
    → length c.m_read_buf - c.m_checked_idx < fuel
    → (parse_loop fuel c).1.m_check_state ≢ check_state_content
    → parse_request (arrive b c) ≡ resumed b (parse_loop fuel c)
unfolding parse_loop Rest
parse_loop-resumed zero b c h m n = elim m [ ]
parse_loop-resumed (suc fuel) b c h m n = go (parse_loop-resumed fuel b) (get_line c) refl
  where
    outside : c.m_check_state ≢ check_state_content
    outside s = n (parse_loop_content (suc fuel) c s)

    go :
        Rest fuel b
        → (o : Option (Bytes × HttpConn)) → get_line c ≡ o
        → parse_request (arrive b c) ≡ resumed b (parse_go (parse_loop fuel) (parse_round c))
    go ih none e = rw (parse_round_wait c outside e)
    go ih (some (line, d)) e =
        parse_request_lem (arrive b c) (rw length-append (omega arith))
        ∙ ap (parse_go parse_request) (parse_round-arrive b c h outside (rw e (λ r. cc)))
        ∙ after_round fuel b c (parse_round c) ih (parse_round-Advances c h) m
            (parse_round-code c e outside) n

-- A request that comes in two pieces, split anywhere before its body, is parsed as if it had come
-- at once: whatever the first call gives, made with its position within the buffer and ending
-- outside the state for the body, the call on all bytes gives the same code and fields, or, where
-- the first call waits for more, what the second call gives.
pub parse_request_resumes :
    (b : Bytes) (c : HttpConn)
    → c.m_checked_idx ≤ length c.m_read_buf
    → (parse_request c).1.m_check_state ≢ check_state_content
    → parse_request (arrive b c) ≡ resumed b (parse_request c)
unfolding parse_request
parse_request_resumes b c h n = parse_loop-resumed (length c.m_read_buf + 2) b c h (omega arith) n
