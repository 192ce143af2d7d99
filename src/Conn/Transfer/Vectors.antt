-- ===== src/Conn/Transfer/Vectors.antt =====
-- WebServer_Proj/HttpConn: after a `writev` the vectors of `write` point to exactly what is left.
use cpp_web_server.Base.{
  ℕ, zero, suc, ◌+◌, ◌-◌, ◌≤◌, ◌<◌, ◌≡◌, refl, sym, ap, subst, ◌∙◌, ◌⊎◌, inl, inr, true, false, [],
  ◌∷◌, ◌++◌, leb, leb→le, if◌then◌else◌, length, length-append, length-drop, take, drop, Bool-cases,
  arith,
}
use cpp_web_server.Text.{Bytes}
use cpp_web_server.Text.Find.{drop-add}
use cpp_web_server.Conn.{HttpConn, IovBase, iov_null, in_write_buf, in_mapping, Iovec}
use cpp_web_server.Conn.Transfer.{
  mapped_bytes, base_bytes, iov_bytes, gather_from, gather, drop_sent, shift_vectors, move_base,
  cut_vector,
}

-- A vector lies within the memory that it points to.
abbrev pub Full : HttpConn → Iovec → Type 0
Full c iv = length (iov_bytes c iv) ≡ iv.iov_len

abbrev pub Covers : ℕ → HttpConn → Type 0
Covers zero c = Unit {0}
Covers (suc zero) c = Full c c.m_iv_0
Covers (suc (suc zero)) c = Full c c.m_iv_0 × Full c c.m_iv_1
Covers _ c = ⊥

-- What the loop over the vectors does not write.
pub record SameMemory (c d : HttpConn) : Type 0 where
  pub same_fd : d.m_sockfd ≡ c.m_sockfd
  pub same_out : d.m_write_buf ≡ c.m_write_buf
  pub same_mmap : d.m_mmap_addr ≡ c.m_mmap_addr
  pub same_keep : d.m_keep_alive ≡ c.m_keep_alive
  pub same_have : d.m_bytes_have_send ≡ c.m_bytes_have_send
  pub same_total : d.m_bytes_to_send ≡ c.m_bytes_to_send

drop-append_ge : (n : ℕ) (a b : Bytes) → length a ≤ n → drop n (a ++ b) ≡ drop (n - length a) b
drop-append_ge n [] b h = let e : n ≡ n - 0 = omega arith in ap (λ k. drop k b) e
drop-append_ge zero (x ∷ a) b h = elim h [ ]
drop-append_ge (suc n) (x ∷ a) b h =
    drop-append_ge n a b (omega arith)
    ∙ ap (λ k. drop k b) (let e : n - length a ≡ suc n - suc (length a) = omega arith in e)

drop-append_le : (n : ℕ) (a b : Bytes) → n ≤ length a → drop n (a ++ b) ≡ drop n a ++ b
drop-append_le zero a b h = refl
drop-append_le (suc n) [] b h = elim h [ ]
drop-append_le (suc n) (x ∷ a) b h = drop-append_le n a b (omega arith)

drop_all : (n : ℕ) (a : Bytes) → length a ≤ n → drop n a ≡ []
drop_all zero [] h = refl
drop_all (suc n) [] h = refl
drop_all zero (x ∷ a) h = elim h [ ]
drop_all (suc n) (x ∷ a) h = drop_all n a (omega arith)

take-nil : (n : ℕ) → ◌≡◌ {A = Bytes} (take n []) []
take-nil zero = refl
take-nil (suc n) = refl

drop-take : (n len : ℕ) (s : Bytes) → drop n (take len s) ≡ take (len - n) (drop n s)
drop-take zero len s = let e : len ≡ len - 0 = omega arith in ap (λ k. take k s) e
drop-take (suc n) zero s =
    let e : zero ≡ 0 - suc n = omega arith in ap (λ k. take k (drop (suc n) s)) e
drop-take (suc n) (suc len) [] = sym (take-nil (suc len - suc n))
drop-take (suc n) (suc len) (x ∷ s) =
    drop-take n len s
    ∙ ap (λ k. take k (drop n s)) (let e : len - n ≡ suc len - suc n = omega arith in e)

-- What the inner loop gives for `n` bytes taken.
pub record Dropped (n : ℕ) (c : HttpConn) (r : ℕ × HttpConn) : Type 0 where
  pub left : drop r.0 (gather r.1) ≡ drop n (gather c)
  pub covers : Covers r.1.m_iv_count r.1
  pub within :
      ((r.1.m_iv_count ≡ 0) × (r.0 ≡ 0)) ⊎ ((0 < r.1.m_iv_count) × (r.0 < r.1.m_iv_0.iov_len))
  pub memory : SameMemory c r.1

drop-nil : (n : ℕ) → ◌≡◌ {A = Bytes} (drop n []) []
drop-nil zero = refl
drop-nil (suc n) = refl

-- Where the front vector is not sent whole, nothing moves.
Dropped-stop :
    (count n : ℕ) (c : HttpConn)
    → c.m_iv_count ≡ suc count
    → Covers (suc count) c
    → leb c.m_iv_0.iov_len n ≡ false
    → Dropped n c (n, c)
Dropped-stop count n c e v h = record {
  left = refl;
  covers = subst (λ k. Covers k c) (sym e) v;
  within = inr (omega arith, ground arith);
  memory = record {
    same_fd = refl;
    same_out = refl;
    same_mmap = refl;
    same_keep = refl;
    same_have = refl;
    same_total = refl;
  };
}

drop_sent-one :
    (n : ℕ) (c : HttpConn)
    → c.m_iv_count ≡ 1
    → Full c c.m_iv_0
    → n ≤ length (iov_bytes c c.m_iv_0)
    → Dropped n c (drop_sent 1 n c)
unfolding drop_sent
drop_sent-one n c e v h = elim (Bool-cases (leb c.m_iv_0.iov_len n)) [
  | inr stays ↦ rw stays (Dropped-stop 0 n c e v stays)
  | inl whole ↦ rw whole (record {
    left =
        drop-nil (n - c.m_iv_0.iov_len)
        ∙ sym (
            ap (λ k. drop n (gather_from k c)) e
            ∙ drop_all n (iov_bytes c c.m_iv_0) (ground arith));
    covers = tt;
    within = inl (refl, ground arith);
    memory = ground arith;
  })
]

drop_sent-suc :
    (count n : ℕ) (c : HttpConn)
    → drop_sent (suc count) n c ≡ (
        if leb c.m_iv_0.iov_len n
        then drop_sent count (n - c.m_iv_0.iov_len) (shift_vectors count c)
        else (n, c))
unfolding drop_sent
drop_sent-suc count n c = refl

drop_sent-two :
    (n : ℕ) (c : HttpConn)
    → c.m_iv_count ≡ 2
    → Full c c.m_iv_0
    → Full c c.m_iv_1
    → n ≤ length (gather_from 2 c)
    → Dropped n c (drop_sent 2 n c)
drop_sent-two n c e v w h = elim (Bool-cases (leb c.m_iv_0.iov_len n)) [
  | inr stays ↦ rw (drop_sent-suc 1 n c, stays) (Dropped-stop 1 n c e (v, w) stays)
  | inl whole ↦
      let ih = drop_sent-one (n - c.m_iv_0.iov_len) (shift_vectors 1 c) refl w (fits whole) in
      rw (drop_sent-suc 1 n c, whole)
        (record {
          left = ih.left ∙ sym (ap (λ k. drop n (gather_from k c)) e ∙ second whole);
          covers = ih.covers;
          within = ih.within;
          memory = ground arith;
        })
]
  where
    b₀ : Bytes
    b₀ = iov_bytes c c.m_iv_0

    b₁ : Bytes
    b₁ = iov_bytes c c.m_iv_1

    fits : leb c.m_iv_0.iov_len n ≡ true → n - c.m_iv_0.iov_len ≤ length b₁
    fits whole = omega (arith, length-append b₀ b₁)

    second : leb c.m_iv_0.iov_len n ≡ true → drop n (b₀ ++ b₁) ≡ drop (n - c.m_iv_0.iov_len) b₁
    second whole =
        drop-append_ge n b₀ b₁ (omega (arith, leb→le c.m_iv_0.iov_len n whole))
        ∙ ap (λ k. drop (n - k) b₁) v

pub drop_sent-Dropped :
    (count n : ℕ) (c : HttpConn)
    → c.m_iv_count ≡ count
    → Covers count c
    → n ≤ length (gather_from count c)
    → Dropped n c (drop_sent count n c)
drop_sent-Dropped zero n c e v h =
    unfold drop_sent in
    record {
      left = refl;
      covers = subst (λ k. Covers k c) (sym e) v;
      within = inl (e, omega arith);
      memory = ground arith;
    }
drop_sent-Dropped (suc zero) n c e v h = drop_sent-one n c e v h
drop_sent-Dropped (suc (suc zero)) n c e v h = drop_sent-two n c e v.0 v.1 h
drop_sent-Dropped (suc (suc (suc k))) n c e v h = elim v [ ]

iov_bytes_cut :
    (c : HttpConn) (n : ℕ) → iov_bytes c (cut_vector n c).m_iv_0 ≡ drop n (iov_bytes c c.m_iv_0)
iov_bytes_cut c n = go c.m_iv_0.iov_base
  where
    go :
        (base : IovBase)
        → take (c.m_iv_0.iov_len - n) (base_bytes c (move_base base n))
          ≡ drop n (take c.m_iv_0.iov_len (base_bytes c base))
    go iov_null =
        take-nil (c.m_iv_0.iov_len - n) ∙ sym (ap (drop n) (take-nil c.m_iv_0.iov_len) ∙ drop-nil n)
    go (in_write_buf k) =
        ap (take (c.m_iv_0.iov_len - n)) (drop-add k n c.m_write_buf)
        ∙ sym (drop-take n c.m_iv_0.iov_len (drop k c.m_write_buf))
    go (in_mapping k) =
        ap (take (c.m_iv_0.iov_len - n)) (drop-add k n (mapped_bytes c.m_mmap_addr))
        ∙ sym (drop-take n c.m_iv_0.iov_len (drop k (mapped_bytes c.m_mmap_addr)))

-- What `write` has still to send is in the vectors, and the counters agree with it.
pub record IsSending (c : HttpConn) : Type 0 where
  pub covers : Covers c.m_iv_count c
  pub counted : c.m_bytes_to_send ≡ c.m_bytes_have_send + length (gather c)

-- The front of the vectors after the cut, for any number of vectors.
pub cut_vector-left :
    (count n : ℕ) (c : HttpConn)
    → Covers (suc count) c
    → n < c.m_iv_0.iov_len
    → (gather_from (suc count) (cut_vector n c) ≡ drop n (gather_from (suc count) c))
      × Covers (suc count) (cut_vector n c)
cut_vector-left zero n c v h = (
  iov_bytes_cut c n,
  omega (arith, ap length (iov_bytes_cut c n), length-drop n (iov_bytes c c.m_iv_0)),
)
cut_vector-left (suc zero) n c v h = (
  ap (λ s. s ++ iov_bytes c c.m_iv_1) (iov_bytes_cut c n)
      ∙ sym (drop-append_le n (iov_bytes c c.m_iv_0) (iov_bytes c c.m_iv_1) (omega (arith, v.0))),
  (omega (arith, ap length (iov_bytes_cut c n), length-drop n (iov_bytes c c.m_iv_0), v.0), v.1),
)
cut_vector-left (suc (suc k)) n c v h = absurd v
