-- ===== src/IoModels/Poll/Entries.antt =====
-- IO-Models/TCP_Server_Poll.cpp: what the body of the loop makes of the array.
use cpp_web_server.Base.{
  ℕ, zero, suc, ◌+◌, ◌-◌, ◌<◌, ◌≤◌, ◌≢◌, ◌⊎◌, inl, inr, ◌==◌, ◌≡◌, refl, ap, ◌∙◌, Bool, true, false,
  some, List, [], ◌∷◌, ◌++◌, length, length-set, get_or, set, if◌then◌else◌, Bool-cases, arith,
}
use cpp_web_server.IoModels.{Act, accepts, receives, closes, waits, is_open, is_open-append}
use cpp_web_server.IoModels.Poll.{
  PollFd, PollServer, max_fds, no_fd, Answers, new_entry, remove_entry,
}
use cpp_web_server.IoModels.Poll.Table.{
  one, listed, listed-suc, listed-set, listed-set_past, listed-get_or, get_or-set, get_or-set_self,
}

abbrev pub entry : PollServer → ℕ → PollFd
entry s i = get_or s.fds i no_fd

abbrev pub once_if : ℕ → Bool → ℕ → ℕ
once_if listenfd b v = if v == listenfd then 1 else if b then 1 else 0

-- The array after a log: the listening descriptor is in front, and each client's descriptor has one
-- entry while it is open, and none otherwise.
pub record IsTable (listenfd : ℕ) (log : List Act) (s : PollServer) : Type 0 where
  pub whole : length s.fds ≡ max_fds
  pub room : s.nfds ≤ max_fds
  pub listens : 0 < s.nfds
  pub first : (entry s 0).fd ≡ listenfd
  pub exact : (v : ℕ) → listed v s.nfds s.fds ≡ once_if listenfd (is_open v log false) v

-- An entry with `revents` has something to receive, or is the one of this pass's `accept`.
abbrev pub Told : Answers → PollServer → Type 0
Told k s =
    (j : ℕ)
    → j < s.nfds
    → (entry s j).revents ≡ true
    → (k.recv (entry s j).fd ≢ waits) ⊎ (k.accepted ≡ some (entry s j).fd)

-- A log with the same open descriptors.
pub IsTable-log :
    (listenfd : ℕ) (log more : List Act) (s : PollServer)
    → ((v : ℕ) → is_open v (log ++ more) false ≡ is_open v log false)
    → IsTable listenfd log s
    → IsTable listenfd (log ++ more) s
IsTable-log listenfd log more s same t = record {
  whole = t.whole;
  room = t.room;
  listens = t.listens;
  first = t.first;
  exact = λ v. rw (same v) (t.exact v);
}

-- The listening descriptor is nowhere but in front.
pub not_listenfd :
    (listenfd : ℕ) (log : List Act) (s : PollServer) (i : ℕ)
    → IsTable listenfd log s
    → 0 < i
    → i < s.nfds
    → ((entry s i).fd == listenfd) ≡ false
not_listenfd listenfd log s i t p h = elim (Bool-cases ((entry s i).fd == listenfd)) [
  | inl e ↦ absurd (
      omega (
        arith,
        twice s.fds s.nfds i t.first (ground (arith, e)) p h t.whole t.room (t.exact listenfd),
      ))
  | inr e ↦ e
]
  where
    twice :
        (es : List PollFd) (n i : ℕ)
        → (get_or es 0 no_fd).fd ≡ listenfd
        → (get_or es i no_fd).fd ≡ listenfd
        → 0 < i
        → i < n
        → length es ≡ max_fds
        → n ≤ max_fds
        → listed listenfd n es ≡ once_if listenfd (is_open listenfd log false) listenfd
        → 2 ≤ 1
    twice es zero i a b p h l m e = absurd (omega (arith, h))
    twice es n zero a b p h l m e = absurd (omega (arith, p))
    twice [] (suc n) (suc i) a b p h l m e = absurd (omega (arith, l))
    twice (e' ∷ es) (suc n) (suc i) a b p h l m e =
        let more : 0 < listed listenfd n es =
          listed-get_or listenfd n i es (omega (arith, h)) (omega (arith, l, m)) b in
        ground (arith, more, e, a)

-- Removing an entry takes its descriptor off the list once.
listed-remove_entry :
    (v i : ℕ) (s : PollServer)
    → i < s.nfds
    → s.nfds ≤ length s.fds
    → listed v (s.nfds - 1) (remove_entry i s).fds + one v (entry s i) ≡ listed v s.nfds s.fds
listed-remove_entry v i s h l = go s.nfds refl h l
  where
    go :
        (n : ℕ)
        → s.nfds ≡ n
        → i < n
        → n ≤ length s.fds
        → listed v (n - 1) (set s.fds i (get_or s.fds (n - 1) no_fd)) + one v (entry s i)
          ≡ listed v n s.fds
    go zero e h l = absurd (omega (arith, h))
    go (suc m) e h l =
        let last = get_or s.fds m no_fd in
        let full : listed v (suc m) s.fds ≡ listed v m s.fds + one v last =
          listed-suc v m s.fds (omega (arith, l)) in
        let kept : suc m - 1 ≡ m = omega arith in
        rw kept (elim (Bool-cases (i == m)) [
          | inl q ↦
              let same : i ≡ m = ground (arith, q) in
              omega (
                arith,
                full,
                listed-set_past v m i s.fds last (omega (arith, same)),
                ap (λ j. one v (get_or s.fds j no_fd)) same,
              )
          | inr q ↦
              let under : i < m = ground (arith, q, h) in
              omega (arith, full, listed-set v m i s.fds last under (omega (arith, l)))
        ])

pub remove_entry-IsTable :
    (listenfd : ℕ) (log : List Act) (i : ℕ) (s : PollServer)
    → IsTable listenfd log s
    → 0 < i
    → i < s.nfds
    → IsTable listenfd
        (log ++ receives (entry s i).fd ∷ closes (entry s i).fd ∷ [])
        (remove_entry i s)
remove_entry-IsTable listenfd log i s t p h = record {
  whole = length-set s.fds i (entry s (s.nfds - 1)) ∙ t.whole;
  room = omega (arith, t.room);
  listens = omega (arith, p, h);
  first =
      ap PollFd.fd (get_or-set i 0 s.fds (entry s (s.nfds - 1)) (λ e. absurd (omega (arith, e, p))))
      ∙ t.first;
  exact = λ v.
      let fd = (entry s i).fd in
      let gone = is_open-append v log (receives fd ∷ closes fd ∷ []) false in
      let less = listed-remove_entry v i s h (omega (arith, t.whole, t.room)) in
      rw gone (
        ends v (listed v (s.nfds - 1) (remove_entry i s).fds) (is_open v log false) less
          (t.exact v));
}
  where
    other : ((entry s i).fd == listenfd) ≡ false
    other = not_listenfd listenfd log s i t p h

    ends :
        (v n : ℕ) (b : Bool)
        → n + one v (entry s i) ≡ listed v s.nfds s.fds
        → listed v s.nfds s.fds ≡ once_if listenfd b v
        → n ≡ once_if listenfd (if (entry s i).fd == v then false else b) v
    ends v n b less e = ground (arith, less, e, other)

pub remove_entry-Told :
    (k : Answers) (i : ℕ) (s : PollServer)
    → s.nfds ≤ length s.fds
    → i < s.nfds
    → Told k s
    → Told k (remove_entry i s)
remove_entry-Told k i s l p t j h = elim (Bool-cases (i == j)) [
  | inl q ↦
      let same : j ≡ i = ground (arith, q) in
      let here : entry (remove_entry i s) j ≡ entry s (s.nfds - 1) =
        ap (λ j. entry (remove_entry i s) j) same
        ∙ get_or-set_self i s.fds (entry s (s.nfds - 1)) (omega (arith, p, l)) in
      rw here (t (s.nfds - 1) (omega (arith, h)))
  | inr q ↦
      let there : entry (remove_entry i s) j ≡ entry s j =
        get_or-set i j s.fds (entry s (s.nfds - 1)) (λ e. absurd (ground (arith, e, q))) in
      rw there (t j (omega (arith, h)))
]

-- What this pass's `accept` gives is a descriptor of its own.
pub record IsFresh (listenfd : ℕ) (log : List Act) (k : Answers) : Type 0 where
  pub positive : (fd : ℕ) → k.accepted ≡ some fd → 0 < fd
  pub other : (fd : ℕ) → k.accepted ≡ some fd → (fd == listenfd) ≡ false
  pub closed : (fd : ℕ) → k.accepted ≡ some fd → is_open fd log false ≡ false

pub new_entry-IsTable :
    (listenfd : ℕ) (log : List Act) (fd : ℕ) (s : PollServer)
    → IsTable listenfd log s
    → s.nfds < max_fds
    → (fd == listenfd) ≡ false
    → is_open fd log false ≡ false
    → IsTable listenfd (log ++ accepts fd ∷ []) (new_entry fd s)
new_entry-IsTable listenfd log fd s t h o c = record {
  whole = length-set s.fds s.nfds e ∙ t.whole;
  room = omega (arith, h);
  listens = omega arith;
  first =
      ap PollFd.fd (get_or-set s.nfds 0 s.fds e (λ q. absurd (omega (arith, q, t.listens))))
      ∙ t.first;
  exact = λ v.
      let gone = is_open-append v log (accepts fd ∷ []) false in
      rw gone (ends v (Bool-cases (fd == v)));
}
  where
    e : PollFd
    e = record { fd = fd; events = true; revents = (entry s s.nfds).revents }

    inside : s.nfds < length s.fds
    inside = omega (arith, h, t.whole)

    counted : (v : ℕ) → listed v (suc s.nfds) (set s.fds s.nfds e) ≡ listed v s.nfds s.fds + one v e
    counted v =
        let more =
          listed-suc v s.nfds (set s.fds s.nfds e)
            (omega (arith, inside, length-set s.fds s.nfds e)) in
        omega (
          arith,
          more,
          listed-set_past v s.nfds s.nfds s.fds e (omega arith),
          ap (one v) (get_or-set_self s.nfds s.fds e inside),
        )

    ends :
        (v : ℕ)
        → ((fd == v) ≡ true) ⊎ ((fd == v) ≡ false)
        → listed v (suc s.nfds) (set s.fds s.nfds e)
          ≡ once_if listenfd (if fd == v then true else is_open v log false) v
    ends v (inl q) =
        let same : v ≡ fd = ground (arith, q) in
        let none_yet : listed v s.nfds s.fds ≡ 0 = t.exact v ∙ rw (same, o, c) refl in
        rw q (ground (arith, counted v, none_yet, same, o))
    ends v (inr q) = rw q (counted v ∙ rw q (omega (arith, t.exact v)))

pub new_entry-Told :
    (k : Answers) (fd : ℕ) (s : PollServer)
    → s.nfds < length s.fds
    → k.accepted ≡ some fd
    → Told k s
    → Told k (new_entry fd s)
new_entry-Told k fd s l a t j h = elim (Bool-cases (s.nfds == j)) [
  | inl q ↦
      let same : j ≡ s.nfds = ground (arith, q) in
      let e : PollFd = record { fd = fd; events = true; revents = (entry s s.nfds).revents } in
      let here : entry (new_entry fd s) j ≡ e =
        ap (λ j. entry (new_entry fd s) j) same ∙ get_or-set_self s.nfds s.fds e l in
      rw here (λ r. inr a)
  | inr q ↦
      let e : PollFd = record { fd = fd; events = true; revents = (entry s s.nfds).revents } in
      let there : entry (new_entry fd s) j ≡ entry s j =
        get_or-set s.nfds j s.fds e (λ u. absurd (ground (arith, u, q))) in
      rw there (t j (ground (arith, h, q)))
]
