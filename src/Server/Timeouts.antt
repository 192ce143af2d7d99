-- ===== src/Server/Timeouts.antt =====
-- WebServer_Proj/WebServer: a timeout closes the connections whose time has passed, and no others.
use cpp_web_server.Base.{
  ℕ, ◌≡◌, refl, sym, ap, ◌∙◌, Bool, true, false, Option, none, some, List, [], ◌∷◌, ◌==◌, ==_iff,
  subst, leb, Bool-cases, inl, inr, ◌⊎◌, if◌then◌else◌, arith,
}
use cpp_web_server.Timer
use cpp_web_server.Timer.{Timer, sigalrm, sigterm, tick}
use cpp_web_server.Timer.Registry.{listed, tick-listed, IsValid, run_op, run_op-IsValid, ticks}
use cpp_web_server.Timer.Deadlines.{
  deadline, IsUnique, deadline-del_node, del_node-IsUnique, unexpired,
}
use cpp_web_server.Conn.{HttpConn}
use cpp_web_server.Server.{
  WebServer, set_user, handle_close_, close_all, consume_signals, handle_timer_, stop,
}
use cpp_web_server.Server.Invariant.{Inv}
use cpp_web_server.Server.Handlers.{IsClosed, handle_close_-IsClosed}

set_user-there :
    (users : ℕ → HttpConn) (fd j : ℕ) (c : HttpConn)
    → (fd == j) ≡ false
    → set_user users fd c j ≡ users j
set_user-there users fd j c e = ap (λ b. if b then c else users j) e

-- The connection of `j` and its timer are the same in both.
pub record SameClient (j : ℕ) (s t : WebServer) : Type 0 where
  pub same_conn : t.users_ j ≡ s.users_ j
  pub same_timer : deadline j t.timer_.list_ ≡ deadline j s.timer_.list_

handle_close_-SameClient :
    (fd j : ℕ) (s : WebServer)
    → IsUnique s.timer_.list_
    → (fd == j) ≡ false
    → SameClient j s (handle_close_ fd s).0
unfolding handle_close_ Timer.del_timer
handle_close_-SameClient fd j s u e = record {
  same_conn = set_user-there s.users_ fd j _ e;
  same_timer =
      deadline-del_node fd j s.timer_.list_ u
      ∙ ap (λ b. if b then none else deadline j s.timer_.list_) e;
}

handle_close_-IsUnique :
    (fd : ℕ) (s : WebServer)
    → IsUnique s.timer_.list_
    → IsUnique (handle_close_ fd s).0.timer_.list_
unfolding handle_close_ Timer.del_timer
handle_close_-IsUnique fd s u = del_node-IsUnique fd s.timer_.list_ u

SameClient-then :
    {j : ℕ} {s t r : WebServer} → SameClient j s t → SameClient j t r → SameClient j s r
SameClient-then a b = record {
  same_conn = b.same_conn ∙ a.same_conn;
  same_timer = b.same_timer ∙ a.same_timer;
}

IsClosed-SameClient : {j : ℕ} {s t : WebServer} → IsClosed j s → SameClient j s t → IsClosed j t
IsClosed-SameClient c e = record {
  no_fd = ap (λ x. x.m_sockfd) e.same_conn ∙ c.no_fd;
  no_timer = e.same_timer ∙ c.no_timer;
}

-- Closing `fd` once more keeps what is closed closed.
handle_close_-IsClosed_again :
    (fd j : ℕ) (s : WebServer)
    → IsUnique s.timer_.list_
    → ((fd == j) ≡ true) ⊎ IsClosed j s
    → IsClosed j (handle_close_ fd s).0
handle_close_-IsClosed_again fd j s u h = elim (Bool-cases (fd == j)) [
  | inl e ↦
      subst (λ k. IsClosed k (handle_close_ fd s).0) ((==_iff fd j).0 e)
        (handle_close_-IsClosed fd s (deadline-del_node fd fd s.timer_.list_ u ∙ ground arith))
  | inr e ↦ elim h [
    | inl same ↦ cc
    | inr c ↦ IsClosed-SameClient c (handle_close_-SameClient fd j s u e)
  ]
]

close_all-IsClosed :
    (fds : List ℕ) (j : ℕ) (s : WebServer)
    → IsUnique s.timer_.list_
    → (listed j fds ≡ true) ⊎ IsClosed j s
    → IsClosed j (close_all fds s).0
unfolding close_all listed
close_all-IsClosed [] j s u (inl e) = cc
close_all-IsClosed [] j s u (inr c) = c
close_all-IsClosed (fd ∷ fds) j s u h =
    close_all-IsClosed fds j (handle_close_ fd s).0 (handle_close_-IsUnique fd s u)
      (go (fd == j) refl h)
  where
    go :
        (b : Bool)
        → (fd == j) ≡ b
        → ((if b then true else listed j fds) ≡ true) ⊎ IsClosed j s
        → (listed j fds ≡ true) ⊎ IsClosed j (handle_close_ fd s).0
    go true e h = inr (handle_close_-IsClosed_again fd j s u (inl e))
    go false e (inl l) = inl l
    go false e (inr c) = inr (handle_close_-IsClosed_again fd j s u (inr c))

close_all-SameClient :
    (fds : List ℕ) (j : ℕ) (s : WebServer)
    → IsUnique s.timer_.list_
    → listed j fds ≡ false
    → SameClient j s (close_all fds s).0
unfolding close_all listed
close_all-SameClient [] j s u e = record { same_conn = refl; same_timer = refl }
close_all-SameClient (fd ∷ fds) j s u e =
    SameClient-then (handle_close_-SameClient fd j s u (ground arith)) (
      close_all-SameClient fds j (handle_close_ fd s).0 (handle_close_-IsUnique fd s u)
        (ground arith))

-- The signals change nothing but whether the loop goes on.
consume_signals-same :
    (sigs : List ℕ) (s : WebServer)
    → ((consume_signals sigs s).timer_ ≡ s.timer_) × ((consume_signals sigs s).users_ ≡ s.users_)
unfolding consume_signals stop
consume_signals-same [] s = (refl, refl)
consume_signals-same (sig ∷ sigs) s =
    go (sig == sigalrm) (sig == sigterm) (consume_signals-same sigs s)
      (consume_signals-same sigs (stop s))
  where
    Same : WebServer → Type 0
    Same t =
        ((consume_signals sigs t).timer_ ≡ s.timer_) × ((consume_signals sigs t).users_ ≡ s.users_)

    go : (a b : Bool) → Same s → Same (stop s) → Same (if a then s else if b then stop s else s)
    go true b p q = p
    go false true p q = q
    go false false p q = p

-- What a timeout does to the connection of `j`, by its deadline.
abbrev pub AfterTimeout : ℕ → Option ℕ → ℕ → WebServer → WebServer → Type 0
AfterTimeout now none j s t = SameClient j s t
AfterTimeout now (some d) j s t = if leb d now then IsClosed j t else SameClient j s t

-- The part behind the signals.
abbrev ticked : ℕ → WebServer → WebServer
ticked now s = (close_all (tick now s.timer_).0 (record s { timer_ = (tick now s.timer_).1 })).0

ticked-AfterTimeout :
    (now j : ℕ) (s : WebServer)
    → IsValid s.timer_
    → AfterTimeout now (deadline j s.timer_.list_) j s (ticked now s)
ticked-AfterTimeout now j s v = go (deadline j s.timer_.list_) refl
  where
    s' : WebServer
    s' = record s { timer_ = (tick now s.timer_).1 }

    unique : IsUnique (tick now s.timer_).1.list_
    unique = unfold run_op in (run_op-IsValid now ticks s.timer_ tt v).unique

    expired :
        listed j (tick now s.timer_).0
        ≡ elim (deadline j s.timer_.list_) [ none ↦ false | some d ↦ leb d now ]
    expired = (tick-listed now s.timer_ j v).0

    kept : deadline j (tick now s.timer_).1.list_ ≡ unexpired now (deadline j s.timer_.list_)
    kept = (tick-listed now s.timer_ j v).1

    spared :
        listed j (tick now s.timer_).0 ≡ false
        → unexpired now (deadline j s.timer_.list_) ≡ deadline j s.timer_.list_
        → SameClient j s (ticked now s)
    spared l k =
        let same = close_all-SameClient (tick now s.timer_).0 j s' unique l in
        record { same_conn = same.same_conn; same_timer = same.same_timer ∙ kept ∙ k }

    on_time :
        (d : ℕ) (b : Bool)
        → deadline j s.timer_.list_ ≡ some d
        → leb d now ≡ b
        → if b then IsClosed j (ticked now s) else SameClient j s (ticked now s)
    on_time d true e h =
        close_all-IsClosed (tick now s.timer_).0 j s' unique (inl (expired ∙ ground arith))
    on_time d false e h = spared (expired ∙ ground arith) (ground arith)

    go : (o : Option ℕ) → deadline j s.timer_.list_ ≡ o → AfterTimeout now o j s (ticked now s)
    go none e = spared (expired ∙ ground arith) (ground arith)
    go (some d) e = on_time d (leb d now) e refl

SameClient-from :
    {j : ℕ} {r s t : WebServer}
    → r.timer_ ≡ s.timer_
    → r.users_ ≡ s.users_
    → SameClient j r t
    → SameClient j s t
SameClient-from {j} e f a = record {
  same_conn = a.same_conn ∙ ap (λ u. u j) f;
  same_timer = a.same_timer ∙ ap (λ x. deadline j x.list_) e;
}

AfterTimeout-from :
    (now : ℕ) (o : Option ℕ) (j : ℕ) (r s t : WebServer)
    → r.timer_ ≡ s.timer_
    → r.users_ ≡ s.users_
    → AfterTimeout now o j r t
    → AfterTimeout now o j s t
AfterTimeout-from now none j r s t e f a = SameClient-from e f a
AfterTimeout-from now (some d) j r s t e f a = go (leb d now) a
  where
    go :
        (b : Bool)
        → (if b then IsClosed j t else SameClient j r t)
        → (if b then IsClosed j t else SameClient j s t)
    go true c = c
    go false a = SameClient-from e f a

-- On a server with right books the handler of the pipe, whatever signals it reads, closes the
-- connections whose deadline has passed, each with its timer, and leaves every other connection and
-- its timer as they were.
pub handle_timer_-AfterTimeout :
    (now : ℕ) (sigs : List ℕ) (j : ℕ) (s : WebServer)
    → Inv s
    → AfterTimeout now (deadline j s.timer_.list_) j s (handle_timer_ now sigs s).0
unfolding handle_timer_
handle_timer_-AfterTimeout now sigs j s v =
    let (e, f) = consume_signals-same sigs s in
    AfterTimeout-from now (deadline j s.timer_.list_) j (consume_signals sigs s) s _ e f (
      subst
        (λ o. AfterTimeout now o j (consume_signals sigs s) (ticked now (consume_signals sigs s)))
        (ap (λ x. deadline j x.list_) e)
        (ticked-AfterTimeout now j (consume_signals sigs s) (subst IsValid (sym e) v.valid)))
