-- ===== src/Conn/Process/Missing.antt =====
-- WebServer_Proj/HttpConn: a request for a file that is not there, from its bytes to the reply.
use cpp_web_server.Base.{
  ℕ, ◌≡◌, refl, sym, ap, subst, ◌∙◌, true, false, none, List, [], ◌∷◌, length, take_all, arith,
}
use cpp_web_server.Kernel.{write_events}
use cpp_web_server.Text.{text, same, c_str}
use cpp_web_server.Text.Find.{Lacks}
use cpp_web_server.MySql.{MySqlPool}
use cpp_web_server.Conn.{HttpConn}
use cpp_web_server.Conn.Parse.Fields.{Request}
use cpp_web_server.Conn.Parse.RoundTrip.{IsRequest, Awaits, past_get, parse_request-get}
use cpp_web_server.Conn.Reply.{
  Host, default_url, file_path, send_error, error_page, serve_path, serve_static_file,
  make_response,
}
use cpp_web_server.Conn.Transfer.{
  Arrival, recv_would_block, received, read, gather, send_would_block, Written, write,
}
use cpp_web_server.Conn.Transfer.Complete.{Accepts}
use cpp_web_server.Conn.Transfer.Progress.{total}
use cpp_web_server.Conn.Process.{rearm, respond, process}
use cpp_web_server.Conn.Process.Answers.{send_error-IsReply}
use cpp_web_server.Conn.Process.Receive.{IsFresh, write_request, read-Awaits, read-some}
use cpp_web_server.Conn.Process.Serve.{reply-written}

-- What the task leaves.
abbrev refused : Request → HttpConn → HttpConn
refused r c =
    send_error 404 (text "Not Found") (record (past_get r c) { m_url = default_url r.url })

not_found-Lacks : Lacks 13 (text "Not Found")
unfolding text
not_found-Lacks = omega arith

make_response-missing :
    (host : Host) (arrivals : List ℕ) (c : HttpConn) (pool : MySqlPool)
    → same c.m_method (text "POST") ≡ false
    → host.stat (c_str (file_path (default_url c.m_url))) ≡ none
    → make_response host arrivals c pool
      ≡ (send_error 404 (text "Not Found") (record c { m_url = default_url c.m_url }), pool)
unfolding make_response serve_static_file
make_response-missing host arrivals c pool m f =
    rw m (ap (λ x. (serve_path host x (record c { m_url = default_url c.m_url }), pool)) f)

process-missing :
    (host : Host) (arrivals : List ℕ) (r : Request) (c : HttpConn) (pool : MySqlPool)
    → IsRequest r
    → Awaits c (write_request r)
    → same r.method (text "POST") ≡ false
    → host.stat (c_str (file_path (default_url r.url))) ≡ none
    → process host arrivals c pool ≡ (refused r c, pool, rearm write_events (refused r c) ∷ [])
unfolding process
process-missing host arrivals r c pool i w m f =
    ap (λ o. respond host arrivals o.0 o.1 pool) (parse_request-get r c [] i w).0
    ∙ ap (λ o. (o.0, o.1, rearm write_events o.0 ∷ []))
        (make_response-missing host arrivals (past_get r c) pool m f)

refused-gather :
    (r : Request) (c : HttpConn) → gather (refused r c) ≡ error_page 404 (text "Not Found")
unfolding send_error
refused-gather r c = take_all (error_page 404 (text "Not Found"))

refused-keep : (r : Request) (c : HttpConn) → (refused r c).m_keep_alive ≡ false
unfolding send_error
refused-keep r c = refl

refused-fd : (r : Request) (c : HttpConn) → rearm write_events (refused r c) ≡ rearm write_events c
unfolding send_error
refused-fd r c = refl

read-fd : (a : Arrival) (c : HttpConn) → rearm write_events (read a c).1 ≡ rearm write_events c
unfolding read
read-fd a c = refl

-- `write` on this connection sends the page and has it closed.
abbrev Refuses : List ℕ → HttpConn → Type 0
Refuses counts d =
    let w : Written = write counts send_would_block d in
    (w.done ≡ true) × (w.taken ≡ error_page 404 (text "Not Found")) × (w.conn.m_keep_alive ≡ false)

refused-Refuses :
    (r : Request) (c : HttpConn) (counts : List ℕ)
    → Accepts counts (length (error_page 404 (text "Not Found")))
    → total counts ≡ length (error_page 404 (text "Not Found"))
    → Refuses counts (refused r c)
refused-Refuses r c counts a t =
    let (done, taken, keep) =
      reply-written (refused r c) (error_page 404 (text "Not Found")) counts
        (send_error-IsReply 404 (text "Not Found") _ not_found-Lacks) (refused-gather r c) a t in
    (done, taken, keep ∙ refused-keep r c)

-- A request for a file that the host does not have, sent to a fresh connection in any chunks and with no
-- more behind it, is answered by the page for 404: the task makes the one call that registers the
-- descriptor for writing, and, where the kernel takes the whole page in any portions, `write` reports
-- that it is done, has sent the page once and in order, and leaves a connection that is not kept,
-- whatever the header lines asked for.
pub process-error_page :
    (host : Host) (arrivals : List ℕ) (r : Request) (a : Arrival) (c : HttpConn) (pool : MySqlPool)
    (counts : List ℕ)
    → IsFresh c
    → IsRequest r
    → same r.method (text "POST") ≡ false
    → a.stop ≡ recv_would_block
    → received a.chunks ≡ write_request r
    → host.stat (c_str (file_path (default_url r.url))) ≡ none
    → Accepts counts (length (error_page 404 (text "Not Found")))
    → total counts ≡ length (error_page 404 (text "Not Found"))
    → let d : HttpConn = (read a c).1 in
      let w : Written = write counts send_would_block (process host arrivals d pool).0 in
      ((read a c).0 ≡ true)
      × ((process host arrivals d pool).2 ≡ rearm write_events c ∷ [])
      × (w.done ≡ true)
      × (w.taken ≡ error_page 404 (text "Not Found"))
      × (w.conn.m_keep_alive ≡ false)
process-error_page host arrivals r a c pool counts f i m stop e missing x t =
    let d : HttpConn = (read a c).1 in
    let p = process-missing host arrivals r d pool i (read-Awaits r a c f e) m missing in
    let (done, taken, keep) =
      subst (Refuses counts) (sym (ap (λ o. o.0) p)) (refused-Refuses r d counts x t) in
    (
      read-some r a c f i stop e,
      ap (λ o. o.2) p ∙ ap (λ y. y ∷ []) (refused-fd r d ∙ read-fd a c),
      done,
      taken,
      keep,
    )
