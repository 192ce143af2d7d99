-- ===== src/Conn.antt =====
-- WebServer_Proj/HttpConn: the state of a connection and its life cycle. The children model the
-- parser, the replies, the transfers and the task that a worker runs.
pub mod Parse
pub mod Reply
pub mod Transfer
pub mod Process
pub mod Descriptor
use cpp_web_server.Base.{
  ℕ, ◌+◌, ◌*◌, ◌/◌, ◌%◌, Bool, true, false, Option, none, some, List, [], ◌∷◌, ◌++◌, ℤ, increment,
  decrement, length,
}
use cpp_web_server.Kernel.{
  SockAddr, Syscall, epoll_ctl, epoll_ctl_add, epoll_ctl_del, read_events, set_nonblocking, close,
  munmap,
}
use cpp_web_server.Text.{Bytes}

pub data CheckState : Type 0 where
  check_state_requestline check_state_header check_state_content : CheckState

pub data HttpCode : Type 0 where
  no_request get_request bad_request internal_error : HttpCode

-- `m_mmap_addr`: null, the MAP_FAILED of a refused `mmap`, or the address of the bytes mapped.
pub data Mapping : Type 0 where
  nullptr map_failed : Mapping
  mapped : Bytes → Mapping

-- An `iov_base`: null, or an offset into `m_write_buf` or into the mapping.
pub data IovBase : Type 0 where
  iov_null : IovBase
  in_write_buf in_mapping : ℕ → IovBase

pub record Iovec : Type 0 where
  pub iov_base : IovBase
  pub iov_len : ℕ

abbrev pub no_iovec : Iovec
no_iovec = record { iov_base = iov_null; iov_len = 0 }

pub record HttpConn : Type 0 where
  pub m_sockfd : Option ℕ
  pub m_addr : SockAddr
  pub m_read_buf : Bytes
  pub m_write_buf : Bytes
  pub m_check_state : CheckState
  pub m_checked_idx : ℕ
  pub m_content_length : ℕ
  pub m_method : Bytes
  pub m_url : Bytes
  pub m_version : Bytes
  pub m_post_data : Bytes
  pub m_keep_alive : Bool
  pub m_mmap_addr : Mapping
  pub m_file_stat_size : ℕ
  pub m_iv_0 : Iovec
  pub m_iv_1 : Iovec
  pub m_iv_count : ℕ
  pub m_bytes_to_send : ℕ
  pub m_bytes_have_send : ℕ

-- The constructor.
abbrev pub new_conn : HttpConn
new_conn = record {
  m_sockfd = none;
  m_addr = record { sin_addr = 0; sin_port = 0 };
  m_read_buf = [];
  m_write_buf = [];
  m_check_state = check_state_requestline;
  m_checked_idx = 0;
  m_content_length = 0;
  m_method = [];
  m_url = [];
  m_version = [];
  m_post_data = [];
  m_keep_alive = false;
  m_mmap_addr = nullptr;
  m_file_stat_size = 0;
  m_iv_0 = no_iovec;
  m_iv_1 = no_iovec;
  m_iv_count = 0;
  m_bytes_to_send = 0;
  m_bytes_have_send = 0;
}

-- `get_port`: `ntohs`, which swaps the two bytes of the port.
unfoldable pub get_port : HttpConn → ℕ
get_port c = c.m_addr.sin_port % 256 * 256 + c.m_addr.sin_port / 256 % 256

unfoldable pub reset : HttpConn → HttpConn
reset c = record c {
  m_read_buf = [];
  m_write_buf = [];
  m_check_state = check_state_requestline;
  m_checked_idx = 0;
  m_content_length = 0;
  m_keep_alive = false;
  m_method = [];
  m_url = [];
  m_version = [];
  m_post_data = [];
  m_bytes_to_send = 0;
  m_bytes_have_send = 0;
  m_iv_count = 0;
  m_iv_0 = no_iovec;
  m_iv_1 = no_iovec;
}

-- `count` is the static `m_user_count`.
unfoldable pub init : ℕ → SockAddr → HttpConn → ℤ → HttpConn × ℤ × List Syscall
unfolding reset
init sockfd addr c count = (
  reset (record c { m_sockfd = some sockfd; m_addr = addr }),
  increment count,
  set_nonblocking (some sockfd) ∷ epoll_ctl (epoll_ctl_add read_events) (some sockfd) ∷ [],
)

abbrev unmap_at : Mapping → HttpConn → HttpConn × List Syscall
unmap_at nullptr c = (c, [])
unmap_at _ c = (record c { m_mmap_addr = nullptr }, munmap c.m_file_stat_size ∷ [])

unfoldable pub unmap : HttpConn → HttpConn × List Syscall
unmap c = unmap_at c.m_mmap_addr c

abbrev close_at : Bool → Option ℕ → HttpConn → ℤ → HttpConn × ℤ × List Syscall
close_at true (some fd) c count = (
  record c { m_sockfd = none },
  decrement count,
  epoll_ctl epoll_ctl_del (some fd) ∷ close fd ∷ [],
)
close_at _ _ c count = (c, count, [])

unfoldable pub close_conn : Bool → HttpConn → ℤ → HttpConn × ℤ × List Syscall
unfolding unmap
close_conn real_close c count =
    let (closed, count', calls) = close_at real_close c.m_sockfd c count in
    let (freed, more) = unmap closed in (freed, count', calls ++ more)
