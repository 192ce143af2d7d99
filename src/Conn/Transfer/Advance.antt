-- ===== src/Conn/Transfer/Advance.antt =====
-- WebServer_Proj/HttpConn: one round of `write`: what is left in the vectors after some bytes were taken.
use cpp_web_server.Base.{
  ℕ, zero, suc, ◌+◌, ◌-◌, ◌≤◌, ◌<◌, ◌≡◌, refl, sym, ap, subst, ◌∙◌, inl, inr, length, length-drop,
  drop, arith,
}
use cpp_web_server.Conn.{HttpConn}
use cpp_web_server.Conn.Transfer.{gather_from, gather, drop_sent, cut_vector, cut_front, advance}
use cpp_web_server.Conn.Transfer.Vectors.{
  Covers, Dropped, drop_sent-Dropped, IsSending, cut_vector-left,
}

-- A connection after `n` more bytes were taken.
pub record Advanced (n : ℕ) (c d : HttpConn) : Type 0 where
  pub left : gather d ≡ drop n (gather c)
  pub covers : Covers d.m_iv_count d
  pub have : d.m_bytes_have_send ≡ c.m_bytes_have_send + n
  pub total : d.m_bytes_to_send ≡ c.m_bytes_to_send
  pub keep : d.m_keep_alive ≡ c.m_keep_alive
  pub same_fd : d.m_sockfd ≡ c.m_sockfd

cut_front_zero : (d : HttpConn) → cut_front 0 d ≡ d
cut_front_zero d = ground arith

cut_front-suc :
    (n count : ℕ) (d : HttpConn)
    → d.m_iv_count ≡ suc count
    → cut_front (suc n) d ≡ cut_vector (suc n) d
cut_front-suc n count d e = ground arith

cut_front-left :
    (left count : ℕ) (d : HttpConn)
    → d.m_iv_count ≡ suc count
    → Covers (suc count) d
    → left < d.m_iv_0.iov_len
    → (gather (cut_front left d) ≡ drop left (gather d))
      × Covers (cut_front left d).m_iv_count (cut_front left d)
cut_front-left zero count d e v h = rw (cut_front_zero d) (refl, subst (λ k. Covers k d) (sym e) v)
cut_front-left (suc n) count d e v h =
    let (cut, covers) = cut_vector-left count (suc n) d v h in
    rw (cut_front-suc n count d e) (
      ap (λ k. gather_from k (cut_vector (suc n) d)) e
          ∙ cut
          ∙ sym (ap (λ k. drop (suc n) (gather_from k d)) e),
      subst (λ k. Covers k (cut_vector (suc n) d)) (sym e) covers,
    )

cut_front_same :
    (left : ℕ) (d : HttpConn)
    → ((cut_front left d).m_bytes_have_send ≡ d.m_bytes_have_send)
      × ((cut_front left d).m_bytes_to_send ≡ d.m_bytes_to_send)
      × ((cut_front left d).m_keep_alive ≡ d.m_keep_alive)
      × ((cut_front left d).m_sockfd ≡ d.m_sockfd)
cut_front_same left d = ground arith

-- The loop over the vectors, and the cut behind it.
cut_front-Dropped :
    (n : ℕ) (c : HttpConn) (r : ℕ × HttpConn)
    → Dropped n c r
    → (gather (cut_front r.0 r.1) ≡ drop n (gather c))
      × Covers (cut_front r.0 r.1).m_iv_count (cut_front r.0 r.1)
cut_front-Dropped n c (left, d) r = elim r.within [
  | inl (none_left, zero_left) ↦
      subst
        (λ k.
          (gather (cut_front k d) ≡ drop n (gather c))
          × Covers (cut_front k d).m_iv_count (cut_front k d))
        (sym zero_left) (rw (cut_front_zero d) (rw zero_left at r.left, r.covers))
  | inr (some_left, part) ↦
      let e : d.m_iv_count ≡ suc (d.m_iv_count - 1) = omega arith in
      let (l, v) =
        cut_front-left left (d.m_iv_count - 1) d e (subst (λ k. Covers k d) e r.covers) part in
      (l ∙ r.left, v)
]

-- The count of what is sent is no part of the vectors.
abbrev counting : ℕ → HttpConn → HttpConn
counting n c = record c { m_bytes_have_send = n }

Covers-counting : (count n : ℕ) (c : HttpConn) → Covers count c → Covers count (counting n c)
Covers-counting zero n c v = tt
Covers-counting (suc zero) n c v = v
Covers-counting (suc (suc zero)) n c v = v
Covers-counting (suc (suc (suc k))) n c v = v

gather-counting :
    (count n : ℕ) (c : HttpConn) → gather_from count (counting n c) ≡ gather_from count c
gather-counting zero n c = refl
gather-counting (suc zero) n c = refl
gather-counting (suc (suc k)) n c = refl

pub advance-Advanced :
    (n : ℕ) (c : HttpConn) → IsSending c → n ≤ length (gather c) → Advanced n c (advance n c)
unfolding advance
advance-Advanced n c s h = record {
  left = both.0 ∙ ap (drop n) same_gather;
  covers = both.1;
  have = same.0 ∙ dropped.memory.same_have;
  total = same.1 ∙ dropped.memory.same_total;
  keep = same.2 ∙ dropped.memory.same_keep;
  same_fd = same.3 ∙ dropped.memory.same_fd;
}
  where
    c₀ : HttpConn
    c₀ = counting (c.m_bytes_have_send + n) c

    same_gather : gather c₀ ≡ gather c
    same_gather = gather-counting c.m_iv_count (c.m_bytes_have_send + n) c

    r : ℕ × HttpConn
    r = drop_sent c.m_iv_count n c₀

    dropped : Dropped n c₀ r
    dropped =
        drop_sent-Dropped c.m_iv_count n c₀ refl
          (Covers-counting c.m_iv_count (c.m_bytes_have_send + n) c s.covers) (rw same_gather h)

    both :
        (gather (cut_front r.0 r.1) ≡ drop n (gather c₀))
        × Covers (cut_front r.0 r.1).m_iv_count (cut_front r.0 r.1)
    both = cut_front-Dropped n c₀ r dropped

    same :
        ((cut_front r.0 r.1).m_bytes_have_send ≡ r.1.m_bytes_have_send)
        × ((cut_front r.0 r.1).m_bytes_to_send ≡ r.1.m_bytes_to_send)
        × ((cut_front r.0 r.1).m_keep_alive ≡ r.1.m_keep_alive)
        × ((cut_front r.0 r.1).m_sockfd ≡ r.1.m_sockfd)
    same = cut_front_same r.0 r.1

pub Advanced-IsSending :
    (n : ℕ) (c d : HttpConn) → IsSending c → n ≤ length (gather c) → Advanced n c d → IsSending d
Advanced-IsSending n c d s h a = record {
  covers = a.covers;
  counted = omega (arith, ap length a.left, length-drop n (gather c), s.counted, a.have, a.total);
}
