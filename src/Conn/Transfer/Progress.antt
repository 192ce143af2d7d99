-- ===== src/Conn/Transfer/Progress.antt =====
-- WebServer_Proj/HttpConn: `write` is done exactly when the kernel has taken all of the reply.
use cpp_web_server.Base.{
  ℕ, zero, suc, ◌+◌, ◌-◌, ◌≡◌, ◌≢◌, sym, ap, subst, ◌∙◌, ◌⊎◌, inl, inr, true, false, List, [], ◌∷◌,
  leb, leb→le, ◌==◌, length, length-drop, Bool-cases, arith,
}
use cpp_web_server.Conn.{HttpConn}
use cpp_web_server.Conn.Transfer.{gather, advance, send_would_block, write_loop, write}
use cpp_web_server.Conn.Transfer.Vectors.{IsSending}
use cpp_web_server.Conn.Transfer.Complete.{Accepts, finished_lem}
use cpp_web_server.Conn.Transfer.Advance.{Advanced, advance-Advanced, Advanced-IsSending}

-- What the kernel takes in one run.
abbrev pub total : List ℕ → ℕ
total [] = 0
total (n ∷ counts) = n + total counts

write_loop-done :
    (counts : List ℕ) (c : HttpConn)
    → IsSending c
    → length (gather c) ≢ 0
    → Accepts counts (length (gather c))
    → (write_loop counts send_would_block c).done ≡ leb (length (gather c)) (total counts)
unfolding write_loop
write_loop-done [] c s ne a = ground arith
write_loop-done (zero ∷ counts) c s ne a =
    let e : length (gather c) - 0 ≡ length (gather c) = omega arith in
    write_loop-done counts c s ne (subst (Accepts counts) e a.1)
    ∙ ap (leb (length (gather c))) (omega arith)
write_loop-done (suc n ∷ counts) c s ne a =
    go (write_loop-done counts d sending) (Bool-cases (leb d.m_bytes_to_send d.m_bytes_have_send))
  where
    d : HttpConn
    d = advance (suc n) c

    adv : Advanced (suc n) c d
    adv = advance-Advanced (suc n) c s a.0

    sending : IsSending d
    sending = Advanced-IsSending (suc n) c d s a.0 adv

    left : length (gather c) - suc n ≡ length (gather d)
    left = omega (arith, ap length adv.left, length-drop (suc n) (gather c))

    go :
        (length (gather d) ≢ 0
          → Accepts counts (length (gather d))
          → (write_loop counts send_would_block d).done ≡ leb (length (gather d)) (total counts))
        → (leb d.m_bytes_to_send d.m_bytes_have_send ≡ true)
          ⊎ (leb d.m_bytes_to_send d.m_bytes_have_send ≡ false)
        → (write_loop (suc n ∷ counts) send_would_block c).done
          ≡ leb (length (gather c)) (suc n + total counts)
    go ih (inl all) = rw all ((finished_lem d).0 ∙ sym reached)
      where
        reached : leb (length (gather c)) (suc n + total counts) ≡ true
        reached = ground (arith, leb→le _ _ all, sending.counted, left)
    go ih (inr more) = rw more (
        ih (ground (arith, more, sending.counted)) (subst (Accepts counts) left a.1)
        ∙ ground (arith, left, a.0))

-- A run of `write` that ends with EAGAIN or before, on a connection that has a reply to send, where
-- the kernel takes no more than it is given, reports that it is done exactly when the kernel has
-- taken the whole of what was left.
pub write-done :
    (counts : List ℕ) (c : HttpConn)
    → IsSending c
    → length (gather c) ≢ 0
    → Accepts counts (length (gather c))
    → (write counts send_would_block c).done ≡ leb (length (gather c)) (total counts)
unfolding write
write-done counts c s ne a = elim (Bool-cases (c.m_bytes_to_send == 0)) [
  | inl z ↦ absurd (ground (arith, s.counted))
  | inr z ↦ rw z (write_loop-done counts c s ne a)
]
