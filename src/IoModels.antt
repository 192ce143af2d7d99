-- ===== src/IoModels.antt =====
-- IO-Models: what the servers around poll, select and epoll do with a descriptor, and which descriptors
-- are open behind it.
pub mod Poll
pub mod Select
pub mod Epoll
use cpp_web_server.Base.{
  ℕ, ◌==◌, ◌≡◌, refl, Bool, true, false, Option, none, some, List, [], ◌∷◌, ◌++◌, if◌then◌else◌,
}
use cpp_web_server.Text.{Bytes, text}
use cpp_web_server.Text.Find.{crlf}

-- What `socket`, `bind` and `listen` give at the start of `main`.
pub record Opening : Type 0 where
  pub socket : Option ℕ
  pub bind : Bool
  pub listen : Bool

-- `main` up to its loop: the listening descriptor, or none where one of the calls fails.
abbrev pub listen_on : Option ℕ → Opening → Option ℕ
listen_on none o = none
listen_on (some listenfd) o = if o.bind then if o.listen then some listenfd else none else none

unfoldable pub open_listen : Opening → Option ℕ
open_listen o = listen_on o.socket o

-- `accept` has given the descriptor, `recv` was called on it, and so on.
pub data Act : Type 0 where
  accepts receives closes watches unwatches : ℕ → Act
  sends : ℕ → Bytes → Act

-- What `recv` on a blocking descriptor comes to: bytes, none and no more, or a wait for the peer.
pub data Received : Type 0 where
  came gave_nothing waits : Received

-- The reply to whatever comes, with its page.
abbrev pub response : Bytes → Bytes
response page =
    text "HTTP/1.1 200 OK" ++ (crlf ++ (text "Content-Type: text/html" ++ (crlf ++ (crlf ++ page))))

-- Whether a client's descriptor is open after an act.
abbrev pub opens : ℕ → Act → Bool → Bool
opens v (accepts fd) b = if fd == v then true else b
opens v (closes fd) b = if fd == v then false else b
opens v _ b = b

abbrev pub is_open : ℕ → List Act → Bool → Bool
is_open v [] b = b
is_open v (a ∷ acts) b = is_open v acts (opens v a b)

pub is_open-append :
    (v : ℕ) (xs ys : List Act) (b : Bool) → is_open v (xs ++ ys) b ≡ is_open v ys (is_open v xs b)
is_open-append v [] ys b = refl
is_open-append v (x ∷ xs) ys b = is_open-append v xs ys (opens v x b)

-- Whether a descriptor is registered with epoll.
abbrev pub registers : ℕ → Act → Bool → Bool
registers v (watches fd) b = if fd == v then true else b
registers v (unwatches fd) b = if fd == v then false else b
registers v _ b = b

abbrev pub is_watched : ℕ → List Act → Bool → Bool
is_watched v [] b = b
is_watched v (a ∷ acts) b = is_watched v acts (registers v a b)

pub is_watched-append :
    (v : ℕ) (xs ys : List Act) (b : Bool)
    → is_watched v (xs ++ ys) b ≡ is_watched v ys (is_watched v xs b)
is_watched-append v [] ys b = refl
is_watched-append v (x ∷ xs) ys b = is_watched-append v xs ys (registers v x b)
