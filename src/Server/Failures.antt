-- ===== src/Server/Failures.antt =====
-- WebServer_Proj/WebServer: what an error of `writev` leaves behind.
use cpp_web_server.Base.{ℕ, ◌≡◌, ◌≢◌, refl, ap, ◌∙◌, true, false, [], ◌∷◌, ◌==◌, arith}
use cpp_web_server.Kernel.{munmap, write_events}
use cpp_web_server.Text.{Bytes}
use cpp_web_server.Epoller.{mod_fd}
use cpp_web_server.Conn.{HttpConn, nullptr, mapped, unmap}
use cpp_web_server.Conn.Transfer.{send_error_stop, Written, write, write_loop}
use cpp_web_server.Server.{WebServer, set_user, handle_write_, after_write}

-- The run of `write` whose first `writev` fails.
abbrev failed : HttpConn → Written
failed c = record {
  done = false;
  conn = record c { m_mmap_addr = nullptr };
  calls = munmap c.m_file_stat_size ∷ [];
  taken = [];
}

write-failed :
    (c : HttpConn) (s : Bytes)
    → c.m_mmap_addr ≡ mapped s
    → c.m_bytes_to_send ≢ 0
    → write [] send_error_stop c ≡ failed c
unfolding write write_loop unmap
write-failed c s e n = ground arith

-- Where the first `writev` of a reply that is mapped in part fails, the handler releases the mapping and
-- then registers the descriptor for writing: the connection is left with the vectors and the count of
-- bytes that it had, and no mapping behind them.
pub handle_write_-failed :
    (now fd : ℕ) (s : WebServer) (file : Bytes)
    → (s.users_ fd).m_mmap_addr ≡ mapped file
    → (s.users_ fd).m_bytes_to_send ≢ 0
    → ((handle_write_ now [] send_error_stop fd s).1
        ≡ munmap (s.users_ fd).m_file_stat_size ∷ mod_fd fd write_events ∷ [])
      × ((handle_write_ now [] send_error_stop fd s).0.users_ fd
          ≡ record (s.users_ fd) { m_mmap_addr = nullptr })
unfolding handle_write_
handle_write_-failed now fd s file e n =
    let w = write-failed (s.users_ fd) file e n in
    (
      ap (λ x. (after_write now fd x (record s { users_ = set_user s.users_ fd x.conn })).1) w,
      ap
            (λ x.
              (after_write now fd x (record s { users_ = set_user s.users_ fd x.conn })).0.users_
                fd)
            w
          ∙ here,
    )
  where
    here :
        set_user s.users_ fd (record (s.users_ fd) { m_mmap_addr = nullptr }) fd
        ≡ record (s.users_ fd) { m_mmap_addr = nullptr }
    here = let e : (fd == fd) ≡ true = ground arith in rw e refl
