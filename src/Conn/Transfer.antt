-- ===== src/Conn/Transfer.antt =====
-- WebServer_Proj/HttpConn: `read` and `write`, the loops over the socket. What the kernel answers
-- to the calls of one loop is an argument: the amounts, and what ends the loop.
pub mod Vectors
pub mod Advance
pub mod Complete
pub mod Progress
pub mod Reads
use cpp_web_server.Base.{
  ℕ, zero, suc, ◌+◌, ◌-◌, Bool, true, false, not, ◌&&◌, List, [], ◌∷◌, ◌++◌, ltb, leb, ◌==◌,
  if◌then◌else◌, length, take, drop,
}
use cpp_web_server.Kernel.{Syscall}
use cpp_web_server.Text.{Bytes, c_str}
use cpp_web_server.Conn.{
  HttpConn, Mapping, nullptr, map_failed, mapped, IovBase, iov_null, in_write_buf, in_mapping,
  Iovec, unmap,
}

-- How a run of `recv` ends: 0, EAGAIN or EWOULDBLOCK, or another error.
pub data RecvStop : Type 0 where
  peer_closed recv_would_block recv_error : RecvStop

-- The chunks that `recv` gives, of 1 to 4095 bytes each, and what ends them.
pub record Arrival : Type 0 where
  pub chunks : List Bytes
  pub stop : RecvStop

-- A chunk is appended as a C string.
abbrev pub received : List Bytes → Bytes
received [] = []
received (chunk ∷ chunks) = c_str chunk ++ received chunks

abbrev pub read_result : RecvStop → Bytes → Bool
read_result recv_would_block [] = false
read_result recv_would_block (_ ∷ _) = true
read_result _ buf = false

unfoldable pub read : Arrival → HttpConn → Bool × HttpConn
unfolding c_str
read a c =
    let buf = c.m_read_buf ++ received a.chunks in
    (read_result a.stop buf, record c { m_read_buf = buf })

-- The bytes that a vector points to.
abbrev pub mapped_bytes : Mapping → Bytes
mapped_bytes (mapped s) = s
mapped_bytes _ = []

abbrev pub base_bytes : HttpConn → IovBase → Bytes
base_bytes c iov_null = []
base_bytes c (in_write_buf k) = drop k c.m_write_buf
base_bytes c (in_mapping k) = drop k (mapped_bytes c.m_mmap_addr)

abbrev pub iov_bytes : HttpConn → Iovec → Bytes
iov_bytes c iv = take iv.iov_len (base_bytes c iv.iov_base)

-- What `writev` gathers from the first `count` vectors.
abbrev pub gather_from : ℕ → HttpConn → Bytes
gather_from zero c = []
gather_from (suc zero) c = iov_bytes c c.m_iv_0
gather_from (suc (suc _)) c = iov_bytes c c.m_iv_0 ++ iov_bytes c c.m_iv_1

abbrev pub gather : HttpConn → Bytes
gather c = gather_from c.m_iv_count c

-- `m_iv_count--`, and the second vector moves to the front if it is still to be sent.
abbrev pub shift_vectors : ℕ → HttpConn → HttpConn
shift_vectors count c = record c {
  m_iv_count = count;
  m_iv_0 = if ltb 0 count then c.m_iv_1 else c.m_iv_0;
}

-- The inner loop: drop the vectors that are sent whole. Its rounds are bounded by `m_iv_count`.
unfoldable pub drop_sent : ℕ → ℕ → HttpConn → ℕ × HttpConn
drop_sent zero n c = (n, c)
drop_sent (suc count) n c =
    let rest = drop_sent count (n - c.m_iv_0.iov_len) (shift_vectors count c) in
    if leb c.m_iv_0.iov_len n then rest else (n, c)

abbrev pub move_base : IovBase → ℕ → IovBase
move_base iov_null n = iov_null
move_base (in_write_buf k) n = in_write_buf (k + n)
move_base (in_mapping k) n = in_mapping (k + n)

abbrev pub cut_vector : ℕ → HttpConn → HttpConn
cut_vector n c = record c {
  m_iv_0 = record { iov_base = move_base c.m_iv_0.iov_base n; iov_len = c.m_iv_0.iov_len - n };
}

-- The front vector, if it is sent in part.
abbrev pub cut_front : ℕ → HttpConn → HttpConn
cut_front n c = if ltb 0 c.m_iv_count && ltb 0 n then cut_vector n c else c

-- After a `writev` that took `n` bytes.
unfoldable pub advance : ℕ → HttpConn → HttpConn
unfolding drop_sent
advance n c =
    let (left, dropped) =
      drop_sent c.m_iv_count n (record c { m_bytes_have_send = c.m_bytes_have_send + n }) in
    cut_front left dropped

-- How a run of `writev` ends before all is sent: EAGAIN or EWOULDBLOCK, or another error.
pub data SendStop : Type 0 where
  send_would_block send_error_stop : SendStop

-- What a run of `write` gives: its result, the connection, the calls, and the bytes that the kernel took.
pub record Written : Type 0 where
  pub done : Bool
  pub conn : HttpConn
  pub calls : List Syscall
  pub taken : Bytes

abbrev pub stopped : SendStop → HttpConn → Written
stopped send_would_block c = record { done = false; conn = c; calls = []; taken = [] }
stopped send_error_stop c =
    let (c', calls) = unmap c in record { done = false; conn = c'; calls = calls; taken = [] }

abbrev pub finished : HttpConn → Written
finished c =
    let (c', calls) = unmap c in
    record {
      done = true;
      conn = record c' { m_bytes_to_send = 0; m_bytes_have_send = 0 };
      calls = calls;
      taken = [];
    }

abbrev pub taking : Bytes → Written → Written
taking s w = record w { taken = s ++ w.taken }

-- The loop, over what `writev` returns: a positive count, or 0, which changes nothing.
unfoldable pub write_loop : List ℕ → SendStop → HttpConn → Written
write_loop [] stop c = stopped stop c
write_loop (zero ∷ counts) stop c = write_loop counts stop c
write_loop (suc n ∷ counts) stop c =
    let sent = advance (suc n) c in
    let more = write_loop counts stop sent in
    taking (take (suc n) (gather c))
      (if leb sent.m_bytes_to_send sent.m_bytes_have_send then finished sent else more)

unfoldable pub write : List ℕ → SendStop → HttpConn → Written
write counts stop c =
    if c.m_bytes_to_send == 0
    then record { done = true; conn = c; calls = []; taken = [] }
    else write_loop counts stop c
