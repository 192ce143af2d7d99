-- ===== src/Conn/Process/Serve.antt =====
-- WebServer_Proj/HttpConn: a request for a file, from the bytes that arrive to the bytes that leave.
use cpp_web_server.Base.{
  ℕ, ◌≡◌, refl, sym, ap, subst, ◌∙◌, Bool, true, false, ◌||◌, some, List, [], ◌∷◌, ◌++◌, append-nil,
  length, if◌then◌else◌, arith,
}
use cpp_web_server.Kernel.{write_events}
use cpp_web_server.Text.{Bytes, text, same, c_str}
use cpp_web_server.MySql.{MySqlPool}
use cpp_web_server.Conn.{HttpConn, mapped}
use cpp_web_server.Conn.Parse.Fields.{Request, any_keeps}
use cpp_web_server.Conn.Parse.RoundTrip.{IsRequest, Awaits, past_get, parse_request-get}
use cpp_web_server.Conn.Reply.{
  Host, two_vectors, file_head, file_path, default_url, serve_path, serve_static_file,
  make_response,
}
use cpp_web_server.Conn.Reply.Framing.{file_head-IsFramed}
use cpp_web_server.Conn.Transfer.{
  Arrival, recv_would_block, received, read, gather, send_would_block, Written, write,
}
use cpp_web_server.Conn.Transfer.Complete.{Accepts, Sends, write-Sends}
use cpp_web_server.Conn.Transfer.Progress.{total, write-done}
use cpp_web_server.Conn.Process.{rearm, respond, process}
use cpp_web_server.Conn.Process.Answers.{
  IsReply, two_vectors-IsReply, gather-two_vectors, nonempty_page,
}
use cpp_web_server.Conn.Process.Receive.{
  IsFresh, write_request, Serves, file_reply, read-Awaits, read-some,
}

-- What the task leaves.
abbrev headed : Request → Bytes → HttpConn → HttpConn
headed r s c = record (past_get r c) {
  m_url = default_url r.url;
  m_write_buf = file_head (default_url r.url) (any_keeps r.fields || c.m_keep_alive) (length s);
}

abbrev answered : Request → Bytes → HttpConn → HttpConn
answered r s c = two_vectors (mapped s) (length s) (headed r s c)

make_response-file :
    (host : Host) (arrivals : List ℕ) (c : HttpConn) (pool : MySqlPool) (s : Bytes)
    → same c.m_method (text "POST") ≡ false
    → host.stat (c_str (file_path (default_url c.m_url))) ≡ some (length s)
    → host.open_mmap (c_str (file_path (default_url c.m_url))) ≡ mapped s
    → make_response host arrivals c pool ≡ (
      two_vectors (mapped s) (length s) (record c {
        m_url = default_url c.m_url;
        m_write_buf = file_head (default_url c.m_url) c.m_keep_alive (length s);
      }),
      pool,
    )
unfolding make_response serve_static_file
make_response-file host arrivals c pool s m f o = rw m (
    ap (λ x. (x, pool))
      (ap (λ x. serve_path host x (record c { m_url = default_url c.m_url })) f
        ∙ ap
            (λ x. two_vectors x (length s) (record c {
              m_url = default_url c.m_url;
              m_write_buf = file_head (default_url c.m_url) c.m_keep_alive (length s);
            }))
            o))

process-file :
    (host : Host) (arrivals : List ℕ) (r : Request) (c : HttpConn) (pool : MySqlPool) (s : Bytes)
    → IsRequest r
    → Awaits c (write_request r)
    → same r.method (text "POST") ≡ false
    → Serves host r s
    → process host arrivals c pool
      ≡ (answered r s c, pool, rearm write_events (answered r s c) ∷ [])
unfolding process
process-file host arrivals r c pool s i w m v =
    ap (λ o. respond host arrivals o.0 o.1 pool) (parse_request-get r c [] i w).0
    ∙ ap (λ o. (o.0, o.1, rearm write_events o.0 ∷ []))
        (make_response-file host arrivals (past_get r c) pool s m v.found v.opened)

-- A reply that the kernel takes whole, in any portions.
pub reply-written :
    (d : HttpConn) (reply : Bytes) (counts : List ℕ)
    → IsReply d
    → gather d ≡ reply
    → Accepts counts (length reply)
    → total counts ≡ length reply
    → let w : Written = write counts send_would_block d in
      (w.done ≡ true) × (w.taken ≡ reply) × (w.conn.m_keep_alive ≡ d.m_keep_alive)
reply-written d reply counts p g a t = (
  done,
  sym (append-nil w.taken)
      ∙ ap (λ b. w.taken ++ (if b then [] else gather w.conn)) (sym done)
      ∙ sends.order
      ∙ g,
  sends.keep,
)
  where
    accepts : Accepts counts (length (gather d))
    accepts = subst (λ b. Accepts counts (length b)) (sym g) a

    w : Written
    w = write counts send_would_block d

    sends : Sends d w
    sends = (write-Sends counts d p.sending p.some_left accepts).0

    done : w.done ≡ true
    done =
        write-done counts d p.sending (nonempty_page (gather d) p.body p.framed) accepts
        ∙ ground (arith, t, ap length g)

or_false : (b : Bool) → (b || false) ≡ b
or_false true = refl
or_false false = refl

keeps_asked :
    (r : Request) (c : HttpConn)
    → c.m_keep_alive ≡ false
    → (any_keeps r.fields || c.m_keep_alive) ≡ any_keeps r.fields
keeps_asked r c k = ap (λ b. any_keeps r.fields || b) k ∙ or_false (any_keeps r.fields)

answered-IsReply : (r : Request) (s : Bytes) (c : HttpConn) → IsReply (answered r s c)
answered-IsReply r s c =
    two_vectors-IsReply (headed r s c) s s (length s) refl
      (file_head-IsFramed (default_url r.url) (any_keeps r.fields || c.m_keep_alive) s)

-- What `write` makes of such an answer, where the kernel takes all of it, in any portions.
answered-written :
    (r : Request) (s : Bytes) (c : HttpConn) (counts : List ℕ)
    → c.m_keep_alive ≡ false
    → Accepts counts (length (file_reply r s))
    → total counts ≡ length (file_reply r s)
    → let w : Written = write counts send_would_block (answered r s c) in
      (w.done ≡ true) × (w.taken ≡ file_reply r s) × (w.conn.m_keep_alive ≡ any_keeps r.fields)
answered-written r s c counts k a t =
    let (done, taken, keep) =
      reply-written (answered r s c) (file_reply r s) counts (answered-IsReply r s c) replied a t in
    (done, taken, keep ∙ keeps_asked r c k)
  where
    replied : gather (answered r s c) ≡ file_reply r s
    replied =
        gather-two_vectors (headed r s c) s (length s) refl
        ∙ ap (λ b. file_head (default_url r.url) b (length s) ++ s) (keeps_asked r c k)

-- `write` on this connection sends the file.
abbrev Whole : Request → Bytes → List ℕ → HttpConn → Type 0
Whole r s counts d =
    let w : Written = write counts send_would_block d in
    (w.done ≡ true) × (w.taken ≡ file_reply r s) × (w.conn.m_keep_alive ≡ any_keeps r.fields)

-- A request for a file that the host can open, sent to a fresh connection in any chunks and with no
-- more behind it, is answered by that file: `read` reports success, the task makes the one call that
-- registers the descriptor for writing, and, where the kernel takes the whole reply in any portions,
-- `write` reports that it is done and has sent the head for that file and the file, once and in
-- order; the connection is kept if a header line asked for that.
pub process-file_reply :
    (host : Host) (arrivals : List ℕ) (r : Request) (a : Arrival) (c : HttpConn) (pool : MySqlPool)
    (s : Bytes) (counts : List ℕ)
    → IsFresh c
    → IsRequest r
    → same r.method (text "POST") ≡ false
    → a.stop ≡ recv_would_block
    → received a.chunks ≡ write_request r
    → Serves host r s
    → Accepts counts (length (file_reply r s))
    → total counts ≡ length (file_reply r s)
    → let d : HttpConn = (read a c).1 in
      let w : Written = write counts send_would_block (process host arrivals d pool).0 in
      ((read a c).0 ≡ true)
      × ((process host arrivals d pool).2 ≡ rearm write_events c ∷ [])
      × (w.done ≡ true)
      × (w.taken ≡ file_reply r s)
      × (w.conn.m_keep_alive ≡ any_keeps r.fields)
process-file_reply host arrivals r a c pool s counts f i m stop e v x t =
    let p = process-file host arrivals r (read a c).1 pool s i (read-Awaits r a c f e) m v in
    let (done, taken, keep) =
      subst (Whole r s counts) (sym (ap (λ o. o.0) p))
        (answered-written r s (read a c).1 counts (unfold read in f.not_kept) x t) in
    (read-some r a c f i stop e, ap (λ o. o.2) p ∙ (unfold read in refl), done, taken, keep)
