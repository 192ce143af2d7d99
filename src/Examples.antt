-- ===== src/Examples.antt =====
-- Concrete values for the tests and examples of WebServer_Proj: a request, a host, a server.
pub mod Timers
pub mod IoModels
pub mod Pools
pub mod Queues
pub mod Requests
pub mod Replies
pub mod Servers
pub mod Stages
pub mod Whole
use cpp_web_server.Base.{
  ℕ, ◌≡◌, ◌≢◌, refl, ap, Bool, true, false, Option, none, some, List, [], ◌∷◌, ◌++◌, length, leb,
  if◌then◌else◌, arith,
}
use cpp_web_server.Kernel.{SockAddr}
use cpp_web_server.Text.{Bytes, text, same, is_space, find, starts_with}
use cpp_web_server.Text.Find.{Lacks}
use cpp_web_server.Conn.{HttpConn, new_conn, nullptr, mapped}
use cpp_web_server.Conn.Parse.Fields.{Request, IsField}
use cpp_web_server.Conn.Parse.RoundTrip.{IsRequest}
use cpp_web_server.Conn.Reply.{Host}
use cpp_web_server.MySql.{MySqlPool}

abbrev pub local : SockAddr
local = record { sin_addr = 16777343; sin_port = 36895 }

-- `GET / HTTP/1.1`, with one header line.
abbrev pub get_root : Request
get_root = record {
  method = 71 ∷ 69 ∷ 84 ∷ [];
  url = 47 ∷ [];
  version = 72 ∷ 84 ∷ 84 ∷ 80 ∷ 47 ∷ 49 ∷ 46 ∷ 49 ∷ [];
  fields = (72 ∷ 111 ∷ 115 ∷ 116 ∷ 58 ∷ 32 ∷ 120 ∷ []) ∷ [];
}

pub get_root-IsRequest : IsRequest get_root
unfolding is_space text find starts_with
get_root-IsRequest = record {
  has_method = λ e. cc;
  has_url = λ e. cc;
  has_version = λ e. cc;
  solid_method = (refl, (refl, (refl, tt)));
  solid_url = (refl, tt);
  solid_version = (refl, (refl, (refl, (refl, (refl, (refl, (refl, (refl, tt))))))));
  good_fields = (record { not_empty = λ e. cc; one_line = omega arith; no_length = refl }, tt);
}

-- Every path is a file of two bytes, and every query selects one row.
abbrev pub small_host : Host
small_host = record {
  stat = λ path. some 2;
  open_mmap = λ path. mapped (104 ∷ 105 ∷ []);
  mysql_query = λ conn sql. some 1;
}

-- No path is a file.
abbrev pub empty_host : Host
empty_host = record small_host { stat = λ path. none }

abbrev pub two_conns : MySqlPool
two_conns = record { conn_queue_ = 100 ∷ 101 ∷ []; current_size_ = 2 }
