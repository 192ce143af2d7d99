-- ===== src/Stages.antt =====
-- HTTP-Protocol: the state of a client in the second and the third server, with the `int` fields
-- that they keep. The second server has no `post_data`: its type is a parameter, `Unit` there.
pub mod Parse
pub mod Second
pub mod Pool
pub mod Reply
pub mod Handle
pub mod Basic
pub mod Loop
pub mod Servers
pub mod Watch
pub mod Hello
use cpp_web_server.Base.{
  ℕ, suc, ◌+◌, ◌-◌, ◌%◌, ◌^◌, Bool, false, List, [], ℤ, pos, negsuc, ltb, if◌then◌else◌,
}
use cpp_web_server.Text.{Bytes}
use cpp_web_server.Text.Number.{Stoi}
use cpp_web_server.Conn.{CheckState, check_state_requestline, HttpCode}

pub record ClientState (B : Type 0) : Type 0 where
  pub fd : ℕ
  pub buffer : Bytes
  pub check_state : CheckState
  pub checked_idx : ℤ
  pub post_data : B
  pub method : Bytes
  pub url : Bytes
  pub version : Bytes
  pub keep_alive : Bool
  pub content_length : ℤ

-- The conversions between `size_t` and `int`.
unfoldable pub to_int : ℕ → ℤ
to_int n = let low = n % 2 ^ 32 in if ltb low (2 ^ 31) then pos low else negsuc (2 ^ 32 - low - 1)

-- What gets out of the parser as an exception: of `std::stoi`, or of `substr` behind the end.
pub data Exception : Type 0 where
  of_stoi : Stoi → Exception
  of_substr : Exception

pub data Outcome : Type 0 where
  returned : HttpCode → Outcome
  thrown : Exception → Outcome
  out_of_fuel : Outcome

module _ {B : Type 0} where
  -- `init`, where `no_data` is an empty `post_data`.
  unfoldable pub init : B → ℕ → ClientState B → ClientState B
  init no_data client_fd c = record c {
    fd = client_fd;
    buffer = [];
    check_state = check_state_requestline;
    checked_idx = pos 0;
    keep_alive = false;
    content_length = pos 0;
    method = [];
    url = [];
    version = [];
    post_data = no_data;
  }
