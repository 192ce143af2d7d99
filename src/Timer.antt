-- ===== src/Timer.antt =====
-- WebServer_Proj/Timer: the list of idle deadlines, and the bridge from signals to the event loop.
-- `time(nullptr)` is the argument `now`; the kernel calls of an operation are a list beside its
-- result. `errno` and the log lines are left out.
pub mod Order
pub mod Deadlines
pub mod Registry
pub mod Size
use cpp_web_server.Base.{
  ℕ, ◌+◌, ◌*◌, ◌%◌, Bool, true, false, Option, none, some, List, [], ◌∷◌, ◌++◌, ltb, leb, ◌==◌,
  if◌then◌else◌,
}
use cpp_web_server.Kernel.{
  SockAddr, Syscall, epoll_ctl, epoll_ctl_add, pipe_events, alarm, sigaction, send_byte,
  set_nonblocking, close,
}

pub record TimerNode : Type 0 where
  pub fd : ℕ
  pub expire : ℕ
  pub addr : SockAddr

pub record Timer : Type 0 where
  pub list_ : List TimerNode
  pub pipefd_0 : Option ℕ
  pub pipefd_1 : Option ℕ
  pub epoll_fd_ : Option ℕ

abbrev pub timeslot : ℕ
timeslot = 5

abbrev pub sigalrm : ℕ
sigalrm = 14

abbrev pub sigterm : ℕ
sigterm = 15

-- The constructor.
abbrev pub new_timer : Timer
new_timer = record { list_ = []; pipefd_0 = none; pipefd_1 = none; epoll_fd_ = none }

abbrev add_sig_ : ℕ → Bool → Syscall
add_sig_ sig restart = sigaction sig restart

abbrev pub set_alarm_ : Syscall
set_alarm_ = alarm timeslot

-- `pair` is what `socketpair` gives, `none` where it fails.
unfoldable pub init : ℕ → Option (ℕ × ℕ) → Timer → Bool × Timer × List Syscall
init epoll_fd none t = (false, record t { epoll_fd_ = some epoll_fd }, [])
init epoll_fd (some (reader, writer)) t = (
  true,
  record t { pipefd_0 = some reader; pipefd_1 = some writer; epoll_fd_ = some epoll_fd },
  set_nonblocking (some writer)
      ∷ set_nonblocking (some reader)
      ∷ epoll_ctl (epoll_ctl_add pipe_events) (some reader)
      ∷ add_sig_ sigalrm true
      ∷ add_sig_ sigterm true
      ∷ set_alarm_
      ∷ [],
)

-- `handle_signal_`: the signal's number goes into the pipe as one `char`.
unfoldable pub handle_signal_ : ℕ → Timer → Syscall
handle_signal_ sig t = send_byte t.pipefd_1 (sig % 256)

-- The loop of `add_timer`: insert before the first node with a later deadline, else `push_back`.
unfoldable pub insert_node : TimerNode → List TimerNode → List TimerNode
insert_node node [] = node ∷ []
insert_node node (it ∷ rest) =
    if ltb node.expire it.expire then node ∷ it ∷ rest else it ∷ insert_node node rest

-- The node that `add_timer` makes.
abbrev pub fresh_node : ℕ → ℕ → SockAddr → TimerNode
fresh_node now fd addr = record { fd = fd; expire = now + 3 * timeslot; addr = addr }

abbrev pub add_node : ℕ → ℕ → SockAddr → List TimerNode → List TimerNode
add_node now fd addr list_ = insert_node (fresh_node now fd addr) list_

unfoldable pub add_timer : ℕ → ℕ → SockAddr → Timer → Timer
add_timer now fd addr t = record t { list_ = add_node now fd addr t.list_ }

-- The loops of `del_timer` and `adjust_timer` stop at the first node of `fd` and erase it.
unfoldable pub del_node : ℕ → List TimerNode → List TimerNode
del_node fd [] = []
del_node fd (it ∷ rest) = if it.fd == fd then rest else it ∷ del_node fd rest

-- The address that `adjust_timer` copies from that node before it erases it.
unfoldable pub find_addr : ℕ → List TimerNode → Option SockAddr
find_addr fd [] = none
find_addr fd (it ∷ rest) = if it.fd == fd then some it.addr else find_addr fd rest

unfoldable pub adjust_list : ℕ → ℕ → List TimerNode → List TimerNode
adjust_list now fd list_ = elim (find_addr fd list_) [
  | none ↦ list_
  | some addr ↦ add_node now fd addr (del_node fd list_)
]

unfoldable pub adjust_timer : ℕ → ℕ → Timer → Timer
adjust_timer now fd t = record t { list_ = adjust_list now fd t.list_ }

unfoldable pub del_timer : ℕ → Timer → Timer
del_timer fd t = record t { list_ = del_node fd t.list_ }

-- The loop of `tick`: the descriptors taken off the front, and the list that is left.
unfoldable pub expire_front : ℕ → List TimerNode → List ℕ × List TimerNode
expire_front now [] = ([], [])
expire_front now (it ∷ rest) =
    let later = expire_front now rest in
    if leb it.expire now then (it.fd ∷ later.0, later.1) else ([], it ∷ rest)

unfoldable pub tick : ℕ → Timer → List ℕ × Timer × List Syscall
tick now t =
    let (expired, kept) = expire_front now t.list_ in
    (expired, record t { list_ = kept }, set_alarm_ ∷ [])

-- The destructor closes both ends of the pipe.
abbrev close_end : Option ℕ → List Syscall
close_end none = []
close_end (some fd) = close fd ∷ []

unfoldable pub destroy : Timer → Timer × List Syscall
destroy t = (record t { list_ = [] }, close_end t.pipefd_0 ++ close_end t.pipefd_1)
