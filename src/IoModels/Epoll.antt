-- ===== src/IoModels/Epoll.antt =====
-- IO-Models/TCP_Server_Epoll.cpp: the loop over the events that epoll gives.
use cpp_web_server.Base.{
  ℕ, ◌<◌, inl, inr, ◌==◌, ◌≡◌, refl, subst, ◌∙◌, Bool, true, false, Option, none, some, List, [],
  ◌∷◌, ◌++◌, ltb, if◌then◌else◌, Bool-cases, arith,
}
use cpp_web_server.Text.{Bytes, text}
use cpp_web_server.IoModels.{
  Act, accepts, receives, closes, watches, unwatches, sends, Received, came, gave_nothing, waits,
  response, Opening, open_listen, is_open, is_open-append, is_watched, is_watched-append,
}

-- An element of `events`, and what the calls behind it give: the descriptor of `accept`, whether
-- `epoll_ctl` takes it, and what `recv` comes to.
pub record Event : Type 0 where
  pub fd : ℕ
  pub accepted : Option ℕ
  pub added : Bool
  pub recv : Received

abbrev pub epoll_page : Bytes
epoll_page = text "<h1>Hello from epoll server!</h1>"

abbrev pub accept_client : Option ℕ → Bool → List Act
accept_client none added = []
accept_client (some client_fd) added =
    if ltb 0 client_fd
    then accepts client_fd ∷ (if added then watches client_fd else closes client_fd) ∷ []
    else accepts client_fd ∷ []

-- `none` where it waits.
abbrev pub receive : Received → ℕ → Option (List Act)
receive came fd = some (receives fd ∷ sends fd (response epoll_page) ∷ [])
receive gave_nothing fd = some (receives fd ∷ unwatches fd ∷ closes fd ∷ [])
receive waits fd = none

unfoldable pub on_event : ℕ → Event → Option (List Act)
on_event listenfd ev =
    if ev.fd == listenfd then some (accept_client ev.accepted ev.added) else receive ev.recv ev.fd

abbrev pub and_then : Option (List Act) → Option (List Act) → Option (List Act)
and_then none later = none
and_then (some acts) none = none
and_then (some acts) (some more) = some (acts ++ more)

-- The loop over the events; `none` where the server waits in `recv`.
unfoldable pub on_events : ℕ → List Event → Option (List Act)
unfolding on_event
on_events listenfd [] = some []
on_events listenfd (ev ∷ rest) = and_then (on_event listenfd ev) (on_events listenfd rest)

-- The outer loop, over what `epoll_wait` gives; `none` where it fails.
unfoldable pub serve_loop : ℕ → List (Option (List Event)) → Option (List Act)
unfolding on_events
serve_loop listenfd [] = some []
serve_loop listenfd (none ∷ rest) = serve_loop listenfd rest
serve_loop listenfd (some events ∷ rest) =
    and_then (on_events listenfd events) (serve_loop listenfd rest)

-- What `main` comes to: it returns -1 after some calls, or its loop runs.
pub data Run : Type 0 where
  not_started : List Act → Run
  served : Option (List Act) → Run

abbrev pub serve_on : Bool → Bool → List (Option (List Event)) → Option ℕ → Run
serve_on created added wakes none = not_started []
serve_on created added wakes (some listenfd) =
    if created
    then if added
      then served (and_then (some (watches listenfd ∷ [])) (serve_loop listenfd wakes))
      else not_started (closes listenfd ∷ [])
    else not_started (closes listenfd ∷ [])

unfoldable pub epoll_main : Opening → Bool → Bool → List (Option (List Event)) → Run
unfolding open_listen serve_loop
epoll_main o created added wakes = serve_on created added wakes (open_listen o)

-- The registered descriptors are the listening one and the open clients.
abbrev pub IsRegistered : ℕ → List Act → Type 0
IsRegistered listenfd log =
    (v : ℕ) → is_watched v log false ≡ (if v == listenfd then true else is_open v log false)

-- What an event's `accept` gives is a descriptor of its own.
pub record IsFresh (listenfd : ℕ) (log : List Act) (ev : Event) : Type 0 where
  pub positive : (fd : ℕ) → ev.accepted ≡ some fd → 0 < fd
  pub other : (fd : ℕ) → ev.accepted ≡ some fd → (fd == listenfd) ≡ false
  pub closed : (fd : ℕ) → ev.accepted ≡ some fd → is_open fd log false ≡ false

-- An event, where `accept` gives a descriptor that is not in use: where the server does not wait in
-- `recv`, the registered descriptors are again the listening one and the open clients, whether
-- `epoll_ctl` has taken the new one or not.
pub on_event-IsRegistered :
    (listenfd : ℕ) (log acts : List Act) (ev : Event)
    → IsRegistered listenfd log
    → IsFresh listenfd log ev
    → on_event listenfd ev ≡ some acts
    → IsRegistered listenfd (log ++ acts)
unfolding on_event
on_event-IsRegistered listenfd log acts ev t f e v =
    rw (is_watched-append v log acts false, is_open-append v log acts false)
      (go (ev.fd == listenfd) refl e)
  where
    b : Bool
    b = is_open v log false

    Kept : List Act → Type 0
    Kept acts =
        is_watched v acts (is_watched v log false)
        ≡ (if v == listenfd then true else is_open v acts b)

    Kept-subst : {xs ys : List Act} → some xs ≡ some ys → Kept xs → Kept ys
    Kept-subst {xs} {ys} q k = let same : xs ≡ ys = ground (arith, q) in subst Kept same k

    taken :
        (c : ℕ) (added : Bool)
        → (c == listenfd) ≡ false
        → is_open c log false ≡ false
        → Kept (accepts c ∷ (if added then watches c else closes c) ∷ [])
    taken c true o n = ground (arith, t v)
    taken c false o n = elim (Bool-cases (c == v)) [
      | inl q ↦
          let same : v ≡ c = ground (arith, q) in
          let none_yet : is_watched v log false ≡ false = t v ∙ rw (same, o, n) refl in
          rw (q, none_yet, same, o) refl
      | inr q ↦ rw q (t v)
    ]

    accepted : (o : Option ℕ) → ev.accepted ≡ o → Kept (accept_client o ev.added)
    accepted none q = t v
    accepted (some c) q =
        let p : ltb 0 c ≡ true = ground (arith, f.positive c q) in
        rw p (taken c ev.added (f.other c q) (f.closed c q))

    received :
        (r : Received) → (ev.fd == listenfd) ≡ false → receive r ev.fd ≡ some acts → Kept acts
    received came o e = Kept-subst e (t v)
    received gave_nothing o e = Kept-subst e (ground (arith, t v, o))
    received waits o e = absurd (ground (arith, e))

    go :
        (c : Bool)
        → (ev.fd == listenfd) ≡ c
        → (if c then some (accept_client ev.accepted ev.added) else receive ev.recv ev.fd)
          ≡ some acts
        → Kept acts
    go true o e = Kept-subst e (accepted ev.accepted refl)
    go false o e = received ev.recv o e
