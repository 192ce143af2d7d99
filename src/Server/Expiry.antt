-- ===== src/Server/Expiry.antt =====
-- WebServer_Proj/WebServer: the books while the connections that a timeout has taken off the list are closed.
use cpp_web_server.Base.{
  ℕ, suc, ◌+◌, ◌≡◌, refl, ap, ◌∙◌, true, false, none, some, List, [], ◌∷◌, ℤ, pos, decrement, leb,
  ◌==◌, length, arith,
}
use cpp_web_server.Timer.{Timer, TimerNode, del_node, del_timer, tick}
use cpp_web_server.Timer.Registry.{listed, dels, ticks, run_op, run_op-IsValid, tick-listed}
use cpp_web_server.Timer.Deadlines.{deadline, unexpired}
use cpp_web_server.Timer.Size.{del_node-none, length-expire_front, expire_front-Once}
use cpp_web_server.Conn.{HttpConn, close_conn}
use cpp_web_server.Conn.Descriptor.{IsAt, close_conn-IsAt, close_conn_open}
use cpp_web_server.Server.{set_user}
use cpp_web_server.Server.Book.{opened, holder, Book, set_user-IsAt}

listed-ne : (fd j : ℕ) (ps : List ℕ) → (fd == j) ≡ false → listed j (fd ∷ ps) ≡ listed j ps
unfolding listed
listed-ne fd j ps n = rw n

listed_head : (fd : ℕ) (ps : List ℕ) → listed fd (fd ∷ ps) ≡ true
unfolding listed
listed_head fd ps = ground arith

listed_tail : (fd j : ℕ) (ps : List ℕ) → listed j ps ≡ true → listed j (fd ∷ ps) ≡ true
unfolding listed
listed_tail fd j ps e = ground arith

-- A close of the first descriptor that a timeout has taken off the list.
pub Book-close_expired :
    {t : Timer} {users : ℕ → HttpConn} {count : ℤ} (fd : ℕ) (ps : List ℕ)
    → Book (fd ∷ ps) t users count
    → Book ps
        (del_timer fd t)
        (set_user users fd (close_conn true (users fd) count).0)
        (close_conn true (users fd) count).1
unfolding del_timer
Book-close_expired {t} {users} {count} fd ps b = record {
  valid = unfold run_op in run_op-IsValid 0 (dels fd) t tt b.valid;
  agree = set_user-IsAt users fd _ (holder ps (del_node fd t.list_)) here there;
  apart = λ j e. rw same (b.apart j (listed_tail fd j ps e));
  once = b.once.1;
  in_range = λ j n. b.in_range j (rw same at n);
  counted =
      (close_conn_open (users fd) count open_fd).1 ∙ ap decrement (b.counted ∙ ap pos one_less);
}
  where
    same : del_node fd t.list_ ≡ t.list_
    same = del_node-none fd t.list_ (b.apart fd (listed_head fd ps))

    one_less : length t.list_ + length (fd ∷ ps) ≡ suc (length (del_node fd t.list_) + length ps)
    one_less = omega (arith, ap length same)

    absent : deadline fd t.list_ ≡ none
    absent = b.apart fd (listed_head fd ps)

    open_fd : (users fd).m_sockfd ≡ some fd
    open_fd = (b.agree fd).fd_is ∙ rw (listed_head fd ps)

    here : IsAt (holder ps (del_node fd t.list_) fd) (close_conn true (users fd) count).0
    here = rw (same, b.once.0, absent) (close_conn-IsAt (users fd) count (b.agree fd))

    there : (j : ℕ) → (fd == j) ≡ false → IsAt (holder ps (del_node fd t.list_) j) (users j)
    there j n = rw (same, ← listed-ne fd j ps n) (b.agree j)

holder_nil : (l : List TimerNode) (j : ℕ) → holder [] l j ≡ opened j (deadline j l)
unfolding listed
holder_nil l j = refl

-- A tick takes the expired descriptors off the list; they are still open.
pub Book-tick :
    {t : Timer} {users : ℕ → HttpConn} {count : ℤ} (now : ℕ)
    → Book [] t users count
    → Book (tick now t).0 (tick now t).1 users count
Book-tick {t} {users} {count} now b = record {
  valid = unfold run_op in run_op-IsValid now ticks t tt b.valid;
  agree = λ j. rw (same_holder j, ← holder_nil t.list_ j) (b.agree j);
  apart = λ j e. ground (arith, now_listed j, now_left j, e);
  once = unfold tick in expire_front-Once now t.list_ b.valid.unique;
  in_range = λ j n. b.in_range j (λ z. n (now_left j ∙ ap (unexpired now) z));
  counted = unfold tick in b.counted ∙ ap pos (omega (arith, length-expire_front now t.list_));
}
  where
    now_listed :
        (j : ℕ)
        → listed j (tick now t).0 ≡ elim (deadline j t.list_) [ none ↦ false | some d ↦ leb d now ]
    now_listed j = (tick-listed now t j b.valid).0

    now_left : (j : ℕ) → deadline j (tick now t).1.list_ ≡ unexpired now (deadline j t.list_)
    now_left j = (tick-listed now t j b.valid).1

    same_holder :
        (j : ℕ) → holder (tick now t).0 (tick now t).1.list_ j ≡ opened j (deadline j t.list_)
    same_holder j = ground (arith, now_listed j, now_left j)

-- Only the list of a timer matters.
pub Book-list :
    {ps : List ℕ} {t t' : Timer} {users : ℕ → HttpConn} {count : ℤ}
    → t'.list_ ≡ t.list_
    → Book ps t users count
    → Book ps t' users count
Book-list e b = record {
  valid = record { sorted = rw e b.valid.sorted; unique = rw e b.valid.unique };
  agree = λ fd. rw e (b.agree fd);
  apart = λ fd h. rw e (b.apart fd h);
  once = b.once;
  in_range = λ fd n. b.in_range fd (rw e at n);
  counted = rw e b.counted;
}
