-- ===== src/Conn/Transfer/Complete.antt =====
-- WebServer_Proj/HttpConn: over any number of partial writes, `write` sends the reply once, in order.
use cpp_web_server.Base.{
  ℕ, zero, suc, ◌-◌, ◌≤◌, ◌≡◌, ◌≢◌, refl, sym, ap, subst, ◌∙◌, ◌⊎◌, inl, inr, true, false, List, [],
  ◌∷◌, ◌++◌, append_assoc, leb, leb→le, ◌==◌, if◌then◌else◌, length, length-drop, take,
  take-append-drop, Bool-cases, arith,
}
use cpp_web_server.Text.{Bytes}
use cpp_web_server.Conn.{HttpConn, nullptr, unmap}
use cpp_web_server.Conn.Transfer.{
  gather, advance, SendStop, send_would_block, Written, finished, taking, write_loop, write,
}
use cpp_web_server.Conn.Transfer.Vectors.{IsSending}
use cpp_web_server.Conn.Transfer.Advance.{Advanced, advance-Advanced, Advanced-IsSending}

-- The kernel takes no more than it is given.
abbrev pub Accepts : List ℕ → ℕ → Type 0
Accepts [] left = Unit {0}
Accepts (n ∷ counts) left = (n ≤ left) × Accepts counts (left - n)

-- What a run of `write` has done to a connection with `s` to send.
pub record Sends (c : HttpConn) (w : Written) : Type 0 where
  pub order : w.taken ++ (if w.done then [] else gather w.conn) ≡ gather c
  pub same_fd : w.conn.m_sockfd ≡ c.m_sockfd
  pub keep : w.conn.m_keep_alive ≡ c.m_keep_alive

-- With EAGAIN the connection can go on later; a finished one has nothing to send.
abbrev pub Resumable : Written → Type 0
Resumable w =
    if w.done
    then (w.conn.m_bytes_to_send ≡ 0) × (w.conn.m_mmap_addr ≡ nullptr)
    else IsSending w.conn

pub finished_lem :
    (d : HttpConn)
    → ((finished d).done ≡ true)
      × ((finished d).taken ≡ [])
      × ((finished d).conn.m_sockfd ≡ d.m_sockfd)
      × ((finished d).conn.m_keep_alive ≡ d.m_keep_alive)
      × ((finished d).conn.m_mmap_addr ≡ nullptr)
unfolding unmap
finished_lem d = ground arith

nil_of_length : (s : Bytes) → length s ≡ 0 → s ≡ []
nil_of_length [] h = refl
nil_of_length (x ∷ xs) h = absurd (omega arith)

-- The run of a `write` that has taken `s` and then goes on as `w`.
Sends-taking :
    (n : ℕ) (c d : HttpConn) (w : Written)
    → Advanced n c d
    → Sends d w
    → Sends c (taking (take n (gather c)) w)
Sends-taking n c d w a s = record {
  order =
      append_assoc (take n (gather c)) w.taken _
      ∙ ap (λ t. take n (gather c) ++ t) (s.order ∙ a.left)
      ∙ take-append-drop n (gather c);
  same_fd = s.same_fd ∙ a.same_fd;
  keep = s.keep ∙ a.keep;
}

finished-Sends : (d : HttpConn) → gather d ≡ [] → Sends d (finished d) × Resumable (finished d)
finished-Sends d e =
    let (done, taken, fd, keep, unmapped) = finished_lem d in
    (record { order = rw taken (sym e); same_fd = fd; keep = keep }, (refl, unmapped))

module _ (stop : SendStop) where
  write_loop_step :
      (n : ℕ) (counts : List ℕ) (c : HttpConn)
      → write_loop (suc n ∷ counts) stop c
        ≡ taking (take (suc n) (gather c)) (
            if leb (advance (suc n) c).m_bytes_to_send (advance (suc n) c).m_bytes_have_send
            then finished (advance (suc n) c)
            else write_loop counts stop (advance (suc n) c))
  unfolding write_loop
  write_loop_step n counts c = refl

write_loop-Sends :
    (counts : List ℕ) (c : HttpConn)
    → IsSending c
    → Accepts counts (length (gather c))
    → Sends c (write_loop counts send_would_block c)
      × Resumable (write_loop counts send_would_block c)
unfolding write_loop
write_loop-Sends [] c s a = (record { order = refl; same_fd = refl; keep = refl }, s)
write_loop-Sends (zero ∷ counts) c s a =
    let e : length (gather c) - 0 ≡ length (gather c) = omega arith in
    write_loop-Sends counts c s (subst (Accepts counts) e a.1)
write_loop-Sends (suc n ∷ counts) c s a =
    go (write_loop-Sends counts d) (Bool-cases (leb d.m_bytes_to_send d.m_bytes_have_send))
  where
    d : HttpConn
    d = advance (suc n) c

    adv : Advanced (suc n) c d
    adv = advance-Advanced (suc n) c s a.0

    sending : IsSending d
    sending = Advanced-IsSending (suc n) c d s a.0 adv

    left : length (gather c) - suc n ≡ length (gather d)
    left = omega (arith, ap length adv.left, length-drop (suc n) (gather c))

    go :
        (IsSending d
          → Accepts counts (length (gather d))
          → Sends d (write_loop counts send_would_block d)
            × Resumable (write_loop counts send_would_block d))
        → (leb d.m_bytes_to_send d.m_bytes_have_send ≡ true)
          ⊎ (leb d.m_bytes_to_send d.m_bytes_have_send ≡ false)
        → Sends c (write_loop (suc n ∷ counts) send_would_block c)
          × Resumable (write_loop (suc n ∷ counts) send_would_block c)
    go ih (inl all) =
        let empty = nil_of_length (gather d) (omega (arith, leb→le _ _ all, sending.counted)) in
        let (sends, res) = finished-Sends d empty in
        rw all (Sends-taking (suc n) c d (finished d) adv sends, res)
    go ih (inr more) =
        let (sends, res) = ih sending (subst (Accepts counts) left a.1) in
        rw more (Sends-taking (suc n) c d _ adv sends, res)

-- A run of `write` that is not cut short by an error, on a connection that has bytes to send and
-- whose vectors hold them all, where the kernel takes no more than it is given: what was taken and
-- what is left make up the reply, in order. If the run is done nothing is left and the mapping is
-- released; if not, the connection can go on later. The descriptor and `m_keep_alive` stay.
pub write-Sends :
    (counts : List ℕ) (c : HttpConn)
    → IsSending c
    → c.m_bytes_to_send ≢ 0
    → Accepts counts (length (gather c))
    → Sends c (write counts send_would_block c) × Resumable (write counts send_would_block c)
unfolding write
write-Sends counts c s ne a = elim (Bool-cases (c.m_bytes_to_send == 0)) [
  | inl z ↦ absurd (ground arith)
  | inr z ↦ rw z (write_loop-Sends counts c s a)
]
