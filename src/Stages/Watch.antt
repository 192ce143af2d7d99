-- ===== src/Stages/Watch.antt =====
-- HTTP-Protocol: what the kernel makes of the calls on one descriptor. A one-shot registration is
-- disarmed when its event is delivered, until EPOLL_CTL_MOD arms it again.
use cpp_web_server.Base.{ℕ, ◌==◌, ◌≡◌, refl, some, List, [], ◌∷◌, ◌++◌, if◌then◌else◌}
use cpp_web_server.Kernel.{
  Syscall, epoll_ctl, EpollOp, epoll_ctl_add, epoll_ctl_mod, epoll_ctl_del, close,
}

-- Not open, open and armed for events, or open and disarmed.
pub data Watch : Type 0 where
  unopened armed disarmed : Watch

abbrev watch_op : EpollOp → Watch
watch_op (epoll_ctl_add _) = armed
watch_op (epoll_ctl_mod _) = armed
watch_op epoll_ctl_del = disarmed

abbrev pub see : ℕ → Syscall → Watch → Watch
see fd (epoll_ctl op (some f)) w = if f == fd then watch_op op else w
see fd (close f) w = if f == fd then unopened else w
see fd _ w = w

abbrev pub seen : ℕ → List Syscall → Watch → Watch
seen fd [] w = w
seen fd (call ∷ calls) w = seen fd calls (see fd call w)

abbrev pub seen_all : List Syscall → (ℕ → Watch) → ℕ → Watch
seen_all calls w fd = seen fd calls (w fd)

-- A disarmed descriptor counts as one.
abbrev pub parked : Watch → ℕ
parked disarmed = 1
parked _ = 0

pub seen-append :
    (fd : ℕ) (xs ys : List Syscall) (w : Watch) → seen fd (xs ++ ys) w ≡ seen fd ys (seen fd xs w)
seen-append fd [] ys w = refl
seen-append fd (x ∷ xs) ys w = seen-append fd xs ys (see fd x w)
