-- ===== src/IoModels/Poll/Table.antt =====
-- IO-Models/TCP_Server_Poll.cpp: the entries of the array below `nfds`, counted by their descriptor.
use cpp_web_server.Base.{
  ℕ, zero, suc, ◌+◌, ◌<◌, ◌≤◌, ◌≢◌, ◌==◌, ◌≡◌, refl, ap, Bool, List, [], ◌∷◌, length, get_or, set,
  if◌then◌else◌, arith,
}
use cpp_web_server.IoModels.Poll.{PollFd, no_fd, mark}

abbrev pub one : ℕ → PollFd → ℕ
one v e = if e.fd == v then 1 else 0

-- How many of the first `n` entries have the descriptor.
abbrev pub listed : ℕ → ℕ → List PollFd → ℕ
listed v zero es = 0
listed v (suc n) [] = 0
listed v (suc n) (e ∷ es) = one v e + listed v n es

pub listed-suc :
    (v n : ℕ) (es : List PollFd)
    → n < length es
    → listed v (suc n) es ≡ listed v n es + one v (get_or es n no_fd)
listed-suc v n [] h = absurd (omega (arith, h))
listed-suc v zero (e ∷ es) h = omega arith
listed-suc v (suc n) (e ∷ es) h = omega (arith, listed-suc v n es (omega (arith, h)))

pub listed-set :
    (v n i : ℕ) (es : List PollFd) (e : PollFd)
    → i < n
    → n ≤ length es
    → listed v n (set es i e) + one v (get_or es i no_fd) ≡ listed v n es + one v e
listed-set v zero i es e h l = absurd (omega (arith, h))
listed-set v (suc n) i [] e h l = absurd (omega (arith, l))
listed-set v (suc n) zero (e' ∷ es) e h l = omega arith
listed-set v (suc n) (suc i) (e' ∷ es) e h l =
    omega (arith, listed-set v n i es e (omega (arith, h)) (omega (arith, l)))

pub listed-set_past :
    (v n i : ℕ) (es : List PollFd) (e : PollFd) → n ≤ i → listed v n (set es i e) ≡ listed v n es
listed-set_past v zero i es e h = refl
listed-set_past v (suc n) i [] e h = refl
listed-set_past v (suc n) zero (e' ∷ es) e h = absurd (omega (arith, h))
listed-set_past v (suc n) (suc i) (e' ∷ es) e h =
    omega (arith, listed-set_past v n i es e (omega (arith, h)))

pub listed-get_or :
    (v n i : ℕ) (es : List PollFd)
    → i < n
    → n ≤ length es
    → (get_or es i no_fd).fd ≡ v
    → 0 < listed v n es
listed-get_or v zero i es h l e = absurd (omega (arith, h))
listed-get_or v (suc n) i [] h l e = absurd (omega (arith, l))
listed-get_or v (suc n) zero (e' ∷ es) h l e = ground (arith, e)
listed-get_or v (suc n) (suc i) (e' ∷ es) h l e =
    omega (arith, listed-get_or v n i es (omega (arith, h)) (omega (arith, l)) e)

pub listed-mark :
    (v m n : ℕ) (ready : ℕ → Bool) (es : List PollFd) → listed v m (mark ready n es) ≡ listed v m es
listed-mark v m zero ready es = refl
listed-mark v m (suc n) ready [] = refl
listed-mark v zero (suc n) ready (e ∷ es) = refl
listed-mark v (suc m) (suc n) ready (e ∷ es) = omega (arith, listed-mark v m n ready es)

pub length-mark :
    (n : ℕ) (ready : ℕ → Bool) (es : List PollFd) → length (mark ready n es) ≡ length es
length-mark zero ready es = refl
length-mark (suc n) ready [] = refl
length-mark (suc n) ready (e ∷ es) = ap suc (length-mark n ready es)

pub mark-ready :
    (n i : ℕ) (ready : ℕ → Bool) (es : List PollFd)
    → i < n
    → n ≤ length es
    → (get_or (mark ready n es) i no_fd).revents ≡ ready (get_or (mark ready n es) i no_fd).fd
mark-ready zero i ready es h l = absurd (omega (arith, h))
mark-ready (suc n) i ready [] h l = absurd (omega (arith, l))
mark-ready (suc n) zero ready (e ∷ es) h l = refl
mark-ready (suc n) (suc i) ready (e ∷ es) h l =
    mark-ready n i ready es (omega (arith, h)) (omega (arith, l))

pub mark-first :
    (n : ℕ) (ready : ℕ → Bool) (es : List PollFd)
    → (get_or (mark ready n es) 0 no_fd).fd ≡ (get_or es 0 no_fd).fd
mark-first zero ready es = refl
mark-first (suc n) ready [] = refl
mark-first (suc n) ready (e ∷ es) = refl

pub get_or-set :
    (i j : ℕ) (es : List PollFd) (e : PollFd)
    → i ≢ j
    → get_or (set es i e) j no_fd ≡ get_or es j no_fd
get_or-set i j [] e n = refl
get_or-set zero zero (e' ∷ es) e n = absurd (n refl)
get_or-set zero (suc j) (e' ∷ es) e n = refl
get_or-set (suc i) zero (e' ∷ es) e n = refl
get_or-set (suc i) (suc j) (e' ∷ es) e n = get_or-set i j es e (λ q. n (ap suc q))

pub get_or-set_self :
    (i : ℕ) (es : List PollFd) (e : PollFd) → i < length es → get_or (set es i e) i no_fd ≡ e
get_or-set_self i [] e h = absurd (omega (arith, h))
get_or-set_self zero (e' ∷ es) e h = refl
get_or-set_self (suc i) (e' ∷ es) e h = get_or-set_self i es e (omega (arith, h))
