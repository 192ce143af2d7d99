-- ===== src/Network.antt =====
-- Network: the servers that give each client one reply, one after the other in TCP_Server.cpp, in a
-- thread each in TCP_Server_Thread.cpp, and by a pool in TCP_Server_Threadpool.cpp. What their `main`
-- does before its loop is that of IO-Models.
use cpp_web_server.Base.{
  ℕ, zero, suc, ◌+◌, ◌==◌, ◌≡◌, refl, ap, subst, ◌∙◌, inl, inr, Bool, true, false, Option, none,
  some, List, [], ◌∷◌, ◌++◌, get_elem?, times, times-append, if◌then◌else◌, Bool-cases,
  Option-cases, arith,
}
use cpp_web_server.Text.{Bytes, text}
use cpp_web_server.Text.Find.{crlf}
use cpp_web_server.IoModels.{
  Act, accepts, receives, closes, sends, Received, came, gave_nothing, waits, response, is_open,
  is_open-append,
}

abbrev pub page : Bytes
page = text "<h1>Hello!</h1>"

-- TCP_Server.cpp answers whatever `recv` gives; `none` where it waits.
abbrev pub answer : ℕ → Received → Option (List Act)
answer fd waits = none
answer fd _ = some (accepts fd ∷ receives fd ∷ sends fd (response page) ∷ closes fd ∷ [])

abbrev pub and_then : Option (List Act) → Option (List Act) → Option (List Act)
and_then none later = none
and_then (some acts) none = none
and_then (some acts) (some more) = some (acts ++ more)

-- Its loop, over what `accept` gives, `none` where it fails, and `recv` behind it.
unfoldable pub serve_loop : List (Option (ℕ × Received)) → Option (List Act)
serve_loop [] = some []
serve_loop (none ∷ rest) = serve_loop rest
serve_loop (some (fd, r) ∷ rest) = and_then (answer fd r) (serve_loop rest)

-- The reply of TCP_Server_Thread.cpp.
abbrev pub thread_reply : Bytes
thread_reply =
    text "HTTP/1.1 200 OK"
    ++ (crlf
        ++ (text "Content-Type: text/html"
            ++ (crlf ++ (text "Content-Length: 19" ++ (crlf ++ (crlf ++ page))))))

-- The reply of TCP_Server_Threadpool.cpp.
abbrev pub pool_reply : Bytes
pool_reply =
    text "HTTP/1.1 200 OK"
    ++ (crlf
        ++ (text "Content-Type: text/html; charset=utf-8"
            ++ (crlf
                ++ (text "Content-Length: 15"
                    ++ (crlf ++ (text "Connection: close" ++ (crlf ++ (crlf ++ page))))))))

-- `Handle_Client`; `none` where it waits in `recv`.
unfoldable pub handle_client : Bytes → ℕ → Received → Option (List Act)
handle_client reply fd came = some (receives fd ∷ sends fd reply ∷ closes fd ∷ [])
handle_client reply fd gave_nothing = some (receives fd ∷ closes fd ∷ [])
handle_client reply fd waits = none

-- The clients whose `Handle_Client` is under way or waits for a thread, and what has been done.
pub record Threaded : Type 0 where
  pub clients : List ℕ
  pub log : List Act

-- `main` takes what `accept` gives, or one of the clients is handled.
pub data Move : Type 0 where
  takes : Option ℕ → Move
  handles : ℕ → Received → Move

abbrev pub without : ℕ → List ℕ → List ℕ
without i [] = []
without zero (fd ∷ fds) = fds
without (suc i) (fd ∷ fds) = fd ∷ without i fds

abbrev pub take_client : Option ℕ → Threaded → Threaded
take_client none s = s
take_client (some fd) s = record { clients = s.clients ++ fd ∷ []; log = s.log ++ accepts fd ∷ [] }

abbrev pub handled : ℕ → Option (List Act) → Threaded → Threaded
handled i none s = s
handled i (some acts) s = record { clients = without i s.clients; log = s.log ++ acts }

abbrev pub handle_at : Bytes → ℕ → Received → Option ℕ → Threaded → Threaded
handle_at reply i r none s = s
handle_at reply i r (some fd) s = handled i (handle_client reply fd r) s

unfoldable pub move : Bytes → Move → Threaded → Threaded
unfolding handle_client
move reply (takes o) s = take_client o s
move reply (handles i r) s = handle_at reply i r (get_elem? s.clients i) s

-- Each client whose handling is not over is open, once, and no other is.
abbrev pub IsServed : Threaded → Type 0
IsServed s = (v : ℕ) → times v s.clients ≡ (if is_open v s.log false then 1 else 0)

-- What `accept` gives is not open.
abbrev pub IsNew : Move → Threaded → Type 0
IsNew (takes (some fd)) s = is_open fd s.log false ≡ false
IsNew _ s = Unit {0}

times-without :
    (v i fd : ℕ) (fds : List ℕ)
    → get_elem? fds i ≡ some fd
    → times v (without i fds) + times v (fd ∷ []) ≡ times v fds
times-without v i fd [] e = absurd (ground arith)
times-without v zero fd (fd' ∷ fds) e =
    let same : fd' ≡ fd = ground (arith, e) in rw same (ground arith)
times-without v (suc i) fd (fd' ∷ fds) e = ground (arith, times-without v i fd fds e)

handled-IsServed :
    (i fd : ℕ) (acts : List Act) (s : Threaded)
    → get_elem? s.clients i ≡ some fd
    → ((v : ℕ) (b : Bool) → is_open v acts b ≡ (if fd == v then false else b))
    → IsServed s
    → IsServed (handled i (some acts) s)
handled-IsServed i fd acts s e shut t v =
    rw (is_open-append v s.log acts false, shut v (is_open v s.log false))
      (ground (arith, times-without v i fd s.clients e, t v))

answered-IsServed :
    (reply : Bytes) (i fd : ℕ) (r : Received) (s : Threaded)
    → get_elem? s.clients i ≡ some fd
    → IsServed s
    → IsServed (handled i (handle_client reply fd r) s)
unfolding handle_client
answered-IsServed reply i fd came s e t =
    handled-IsServed i fd (receives fd ∷ sends fd reply ∷ closes fd ∷ []) s e (λ v b. refl) t
answered-IsServed reply i fd gave_nothing s e t =
    handled-IsServed i fd (receives fd ∷ closes fd ∷ []) s e (λ v b. refl) t
answered-IsServed reply i fd waits s e t = t

-- A step of the server with threads, or with a pool, where `accept` gives a descriptor that is not
-- open: the open descriptors are again those of the clients whose handling is not over, each of which
-- is handled once.
pub move-IsServed :
    (reply : Bytes) (m : Move) (s : Threaded) → IsNew m s → IsServed s → IsServed (move reply m s)
unfolding move handle_client
move-IsServed reply (takes none) s n t v = t v
move-IsServed reply (takes (some fd)) s n t v =
    rw (is_open-append v s.log (accepts fd ∷ []) false) (elim (Bool-cases (fd == v)) [
      | inl q ↦
          let same : v ≡ fd = ground (arith, q) in
          let none_yet : times v s.clients ≡ 0 = t v ∙ rw (same, n) refl in
          rw q (ground (arith, times-append v s.clients (fd ∷ []), none_yet, q))
      | inr q ↦ rw q (ground (arith, times-append v s.clients (fd ∷ []), t v, q))
    ])
move-IsServed reply (handles i r) s n t v = elim (Option-cases (get_elem? s.clients i)) [
  | inl e ↦ rw e (t v)
  | inr e ↦ rw e.1 (answered-IsServed reply i e.0 r s e.1 t v)
]

answered-closed :
    (fd v : ℕ) (more acts : List Act) (page : Bytes)
    → is_open v more false ≡ false
    → some ((accepts fd ∷ receives fd ∷ sends fd page ∷ closes fd ∷ []) ++ more) ≡ some acts
    → is_open v acts false ≡ false
answered-closed fd v more acts page h e =
    let shut : (if fd == v then false else if fd == v then true else false) ≡ false =
      ground arith in
    let same : accepts fd ∷ receives fd ∷ sends fd page ∷ closes fd ∷ more ≡ acts =
      ground (arith, e) in
    subst (λ l. is_open v l false ≡ false) same (ap (λ b. is_open v more b) shut ∙ h)

-- TCP_Server.cpp, which does one client at a time: where it does not wait in `recv`, no client is open
-- behind the loop.
pub serve_loop-closed :
    (calls : List (Option (ℕ × Received))) (acts : List Act)
    → serve_loop calls ≡ some acts
    → (v : ℕ) → is_open v acts false ≡ false
unfolding serve_loop
serve_loop-closed [] acts e v =
    let same : [] ≡ acts = ground (arith, e) in subst (λ l. is_open v l false ≡ false) same refl
serve_loop-closed (none ∷ rest) acts e v = serve_loop-closed rest acts e v
serve_loop-closed (some (fd, r) ∷ rest) acts e v =
    go r (serve_loop rest) e (λ more q. serve_loop-closed rest more q v)
  where
    closing :
        (o : Option (List Act))
        → and_then (some (accepts fd ∷ receives fd ∷ sends fd (response page) ∷ closes fd ∷ [])) o
          ≡ some acts
        → ((more : List Act) → o ≡ some more → is_open v more false ≡ false)
        → is_open v acts false ≡ false
    closing none e ih = absurd (ground (arith, e))
    closing (some more) e ih = answered-closed fd v more acts (response page) (ih more refl) e

    go :
        (r : Received) (o : Option (List Act))
        → and_then (answer fd r) o ≡ some acts
        → ((more : List Act) → o ≡ some more → is_open v more false ≡ false)
        → is_open v acts false ≡ false
    go waits o e ih = absurd (ground (arith, e))
    go came o e ih = closing o e ih
    go gave_nothing o e ih = closing o e ih
