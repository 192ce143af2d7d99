-- ===== src/Server/Book.antt =====
-- WebServer_Proj/WebServer: the books that the server keeps of its connections are the timers, the
-- descriptors of `users_` and the count. A descriptor has a timer exactly while its connection is
-- open, and the count is the number of open connections.
use cpp_web_server.Base.{
  ℕ, suc, ◌+◌, ◌*◌, ◌<◌, ◌≡◌, ◌≢◌, refl, sym, ap, subst, ◌∙◌, true, false, Option, none, some, List,
  [], ℤ, pos, increment, decrement, ◌==◌, ==_iff, length, Bool-cases, Option-cases, inl, inr,
  if◌then◌else◌, arith,
}
use cpp_web_server.Kernel.{SockAddr}
use cpp_web_server.Timer.{
  Timer, TimerNode, timeslot, fresh_node, insert_node, del_node, adjust_list, add_timer, del_timer,
  adjust_timer,
}
use cpp_web_server.Timer.Registry.{IsValid, listed, adds, adjusts, dels, run_op, run_op-IsValid}
use cpp_web_server.Timer.Deadlines.{
  deadline, deadline-insert_node, deadline-del_node, deadline-adjust_list,
}
use cpp_web_server.Timer.Size.{
  length-insert_node, del_node-none, length-del_node, length-adjust_list, Once,
}
use cpp_web_server.Conn.{HttpConn, init, close_conn}
use cpp_web_server.Conn.Descriptor.{
  IsAt, init-IsAt, close_conn-IsAt, close_conn_open, close_conn_closed,
}
use cpp_web_server.Server.{max_fd, set_user}

-- The descriptor of the connection of `fd`, where `fd` has this deadline.
abbrev pub opened : ℕ → Option ℕ → Option ℕ
opened fd none = none
opened fd (some d) = some fd

-- ... or is about to be closed.
abbrev pub holder : List ℕ → List TimerNode → ℕ → Option ℕ
holder ps l fd = if listed fd ps then some fd else opened fd (deadline fd l)

-- `ps` are the descriptors that a timeout has taken off the list and that are still to be closed.
pub record Book (ps : List ℕ) (t : Timer) (users : ℕ → HttpConn) (count : ℤ) : Type 0 where
  pub valid : IsValid t
  pub agree : (fd : ℕ) → IsAt (holder ps t.list_ fd) (users fd)
  pub apart : (fd : ℕ) → listed fd ps ≡ true → deadline fd t.list_ ≡ none
  pub once : Once ps
  pub in_range : (fd : ℕ) → deadline fd t.list_ ≢ none → fd < max_fd
  pub counted : count ≡ pos (length t.list_ + length ps)

pub set_user-IsAt :
    (users : ℕ → HttpConn) (fd : ℕ) (c : HttpConn) (o : ℕ → Option ℕ)
    → IsAt (o fd) c
    → ((j : ℕ) → (fd == j) ≡ false → IsAt (o j) (users j))
    → (j : ℕ) → IsAt (o j) (set_user users fd c j)
set_user-IsAt users fd c o here there j = elim (Bool-cases (fd == j)) [
  | inl e ↦ rw e (subst (λ k. IsAt (o k) c) ((==_iff fd j).0 e) here)
  | inr e ↦ rw e (there j e)
]

opened-none : (fd : ℕ) (d : Option ℕ) → opened fd d ≡ none → d ≡ none
opened-none fd none e = refl
opened-none fd (some d) e = cc

module _ {t : Timer} {users : ℕ → HttpConn} {count : ℤ} where
  -- A descriptor whose connection is closed has no timer.
  closed-deadline :
      (fd : ℕ) → Book [] t users count → (users fd).m_sockfd ≡ none → deadline fd t.list_ ≡ none
  unfolding listed
  closed-deadline fd b free = opened-none fd _ (sym (b.agree fd).fd_is ∙ free)

  -- A new connection on a closed descriptor.
  pub Book-open :
      (now fd : ℕ) (addr : SockAddr)
      → Book [] t users count
      → (users fd).m_sockfd ≡ none
      → fd < max_fd
      → Book []
          (add_timer now fd addr t)
          (set_user users fd (init fd addr (users fd) count).0)
          (increment count)
  unfolding add_timer listed
  Book-open now fd addr b free small = record {
    valid = unfold run_op in run_op-IsValid now (adds fd addr) t absent b.valid;
    agree = set_user-IsAt users fd _ (holder [] l') here there;
    apart = λ j e. cc;
    once = tt;
    in_range = λ j n. elim (Bool-cases (fd == j)) [
      | inl e ↦ subst (λ k. k < max_fd) ((==_iff fd j).0 e) small
      | inr e ↦ b.in_range j (λ z. n (there_deadline j e ∙ z))
    ];
    counted =
        ap increment b.counted
        ∙ ap pos (omega (arith, length-insert_node (fresh_node now fd addr) t.list_));
  }
    where
      absent : deadline fd t.list_ ≡ none
      absent = closed-deadline fd b free

      l' : List TimerNode
      l' = insert_node (fresh_node now fd addr) t.list_

      look :
          (j : ℕ)
          → deadline j l' ≡ (if fd == j then some (now + 3 * timeslot) else deadline j t.list_)
      look j = deadline-insert_node (fresh_node now fd addr) j t.list_ absent

      there_deadline : (j : ℕ) → (fd == j) ≡ false → deadline j l' ≡ deadline j t.list_
      there_deadline j n = ground (arith, look j)

      here : IsAt (holder [] l' fd) (init fd addr (users fd) count).0
      here =
          let e : deadline fd l' ≡ some (now + 3 * timeslot) = ground (arith, look fd) in
          rw e (init-IsAt fd addr (users fd) count)

      there : (j : ℕ) → (fd == j) ≡ false → IsAt (holder [] l' j) (users j)
      there j n = rw (there_deadline j n) (b.agree j)

-- A connection is replaced by one with the same descriptor.
pub Book-update :
    {ps : List ℕ} {t : Timer} {users : ℕ → HttpConn} {count : ℤ} (fd : ℕ) (c : HttpConn)
    → Book ps t users count
    → IsAt (holder ps t.list_ fd) c
    → Book ps t (set_user users fd c) count
Book-update {ps} {t} {users} fd c b i = record {
  valid = b.valid;
  agree = set_user-IsAt users fd c (holder ps t.list_) i (λ j n. b.agree j);
  apart = b.apart;
  once = b.once;
  in_range = b.in_range;
  counted = b.counted;
}

opened-some : (fd : ℕ) (d : Option ℕ) → d ≢ none → opened fd d ≡ some fd
opened-some fd none n = absurd (n refl)
opened-some fd (some d) n = refl

-- The refresh of a timer.
pub Book-adjust :
    {t : Timer} {users : ℕ → HttpConn} {count : ℤ} (now fd : ℕ)
    → Book [] t users count
    → Book [] (adjust_timer now fd t) users count
unfolding adjust_timer listed
Book-adjust {t} {users} {count} now fd b = record {
  valid = unfold run_op in run_op-IsValid now (adjusts fd) t tt b.valid;
  agree = λ j. rw (same_open j) (b.agree j);
  apart = λ j e. cc;
  once = tt;
  in_range = λ j n. b.in_range j (λ z. n (opened-none j _ (same_open j ∙ ap (opened j) z)));
  counted = b.counted ∙ ap pos (omega (arith, length-adjust_list now fd t.list_));
}
  where
    same_open :
        (j : ℕ) → opened j (deadline j (adjust_list now fd t.list_)) ≡ opened j (deadline j t.list_)
    same_open j = ground (
      arith,
      deadline-adjust_list now fd j t.list_ b.valid.unique,
      deadline-adjust_list now fd fd t.list_ b.valid.unique,
    )

-- A close, of a descriptor that is not on its way out.
pub Book-close :
    {t : Timer} {users : ℕ → HttpConn} {count : ℤ} (fd : ℕ)
    → Book [] t users count
    → Book []
        (del_timer fd t)
        (set_user users fd (close_conn true (users fd) count).0)
        (close_conn true (users fd) count).1
unfolding del_timer listed
Book-close {t} {users} {count} fd b = record {
  valid = unfold run_op in run_op-IsValid 0 (dels fd) t tt b.valid;
  agree = set_user-IsAt users fd _ (holder [] l') here there;
  apart = λ j e. cc;
  once = tt;
  in_range = λ j n. b.in_range j (λ z. n (ground (arith, look j)));
  counted = elim (Option-cases (deadline fd t.list_)) [
    | inl e ↦
        (close_conn_closed (users fd) count ((b.agree fd).fd_is ∙ ap (opened fd) e)).1
        ∙ b.counted
        ∙ ap (λ l. pos (length l + 0)) (sym (del_node-none fd t.list_ e))
    | inr (d, e) ↦
        (close_conn_open (users fd) count ((b.agree fd).fd_is ∙ ap (opened fd) e)).1
        ∙ ap decrement (b.counted ∙ ap pos (one_less d e))
  ];
}
  where
    one_less :
        (d : ℕ)
        → deadline fd t.list_ ≡ some d
        → length t.list_ + 0 ≡ suc (length (del_node fd t.list_) + 0)
    one_less d e = omega (arith, length-del_node fd t.list_ (rw e (λ z. cc)))

    l' : List TimerNode
    l' = del_node fd t.list_

    look : (j : ℕ) → deadline j l' ≡ (if fd == j then none else deadline j t.list_)
    look j = deadline-del_node fd j t.list_ b.valid.unique

    here : IsAt (holder [] l' fd) (close_conn true (users fd) count).0
    here =
        let e : deadline fd l' ≡ none = ground (arith, look fd) in
        rw e (close_conn-IsAt (users fd) count (b.agree fd))

    there : (j : ℕ) → (fd == j) ≡ false → IsAt (holder [] l' j) (users j)
    there j n =
        let e : deadline j l' ≡ deadline j t.list_ = ground (arith, look j) in rw e (b.agree j)
