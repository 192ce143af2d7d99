-- ===== src/Timer/Deadlines.antt =====
-- WebServer_Proj/Timer: the deadline of a descriptor, and what the loops over the list do to it.
use cpp_web_server.Base.{
  ℕ, ◌+◌, ◌*◌, ◌≡◌, ◌≢◌, refl, Option, none, some, List, [], ◌∷◌, leb, ◌==◌, Option-cases,
  if◌then◌else◌, inl, inr, arith,
}
use cpp_web_server.Kernel.{SockAddr}
use cpp_web_server.Timer.{
  TimerNode, timeslot, insert_node, fresh_node, del_node, find_addr, adjust_list,
}
use cpp_web_server.Timer.Order.{SortedFrom, SortedFrom-le, alive}

-- The deadline of `fd`, that of its first node.
unfoldable pub deadline : ℕ → List TimerNode → Option ℕ
deadline fd [] = none
deadline fd (it ∷ rest) = if it.fd == fd then some it.expire else deadline fd rest

-- No descriptor has two nodes.
abbrev pub IsUnique : List TimerNode → Type 0
IsUnique [] = Unit {0}
IsUnique (it ∷ rest) = (deadline it.fd rest ≡ none) × IsUnique rest

pub deadline-insert_node :
    (node : TimerNode) (j : ℕ) (l : List TimerNode)
    → deadline node.fd l ≡ none
    → deadline j (insert_node node l) ≡ (if node.fd == j then some node.expire else deadline j l)
unfolding deadline insert_node
deadline-insert_node node j [] h = refl
deadline-insert_node node j (it ∷ rest) h = ground (arith, deadline-insert_node node j rest)

pub insert_node-IsUnique :
    (node : TimerNode) (l : List TimerNode)
    → deadline node.fd l ≡ none
    → IsUnique l
    → IsUnique (insert_node node l)
unfolding deadline insert_node
insert_node-IsUnique node [] h u = (refl, tt)
insert_node-IsUnique node (it ∷ rest) h u =
    ground (arith, insert_node-IsUnique node rest, deadline-insert_node node it.fd rest)

pub deadline-del_node :
    (fd j : ℕ) (l : List TimerNode)
    → IsUnique l
    → deadline j (del_node fd l) ≡ (if fd == j then none else deadline j l)
unfolding deadline del_node
deadline-del_node fd j [] u = ground arith
deadline-del_node fd j (it ∷ rest) u = ground (arith, deadline-del_node fd j rest)

pub del_node-IsUnique : (fd : ℕ) (l : List TimerNode) → IsUnique l → IsUnique (del_node fd l)
unfolding deadline del_node
del_node-IsUnique fd [] u = tt
del_node-IsUnique fd (it ∷ rest) u =
    ground (arith, del_node-IsUnique fd rest, deadline-del_node fd it.fd rest)

-- `adjust_timer` finds a node exactly where the descriptor has a deadline.
pub find_addr-none : (fd : ℕ) (l : List TimerNode) → find_addr fd l ≡ none → deadline fd l ≡ none
unfolding find_addr deadline
find_addr-none fd [] e = refl
find_addr-none fd (it ∷ rest) e = ground (arith, find_addr-none fd rest)

pub find_addr-some :
    (fd : ℕ) (l : List TimerNode) {addr : SockAddr}
    → find_addr fd l ≡ some addr
    → deadline fd l ≢ none
unfolding find_addr deadline
find_addr-some fd [] e = cc
find_addr-some fd (it ∷ rest) {addr} e = ground (arith, find_addr-some fd rest {addr = addr})

pub deadline-adjust_list :
    (now fd j : ℕ) (l : List TimerNode)
    → IsUnique l
    → deadline j (adjust_list now fd l) ≡ (
        if fd == j
        then elim (deadline fd l) [ none ↦ none | some d ↦ some (now + 3 * timeslot) ]
        else deadline j l)
unfolding adjust_list
deadline-adjust_list now fd j l u = elim (Option-cases (find_addr fd l)) [
  | inl e ↦ rw (e, adjust_list) (ground (arith, find_addr-none fd l e))
  | inr (addr, e) ↦
      rw (e, adjust_list)
        (ground (
          arith,
          find_addr-some fd l e,
          deadline-insert_node (fresh_node now fd addr) j (del_node fd l),
          deadline-del_node fd fd l u,
          deadline-del_node fd j l u,
        ))
]

pub adjust_list-IsUnique :
    (now fd : ℕ) (l : List TimerNode) → IsUnique l → IsUnique (adjust_list now fd l)
unfolding adjust_list
adjust_list-IsUnique now fd l u = elim (Option-cases (find_addr fd l)) [
  | inl e ↦ rw (e, adjust_list) u
  | inr (addr, e) ↦
      rw (e, adjust_list)
        (insert_node-IsUnique (fresh_node now fd addr) (del_node fd l)
          (ground (arith, deadline-del_node fd fd l u)) (del_node-IsUnique fd l u))
]

-- What `tick` leaves of a deadline.
abbrev pub unexpired : ℕ → Option ℕ → Option ℕ
unexpired now none = none
unexpired now (some d) = if leb d now then none else some d

pub deadline-alive :
    (now j : ℕ) (l : List TimerNode)
    → IsUnique l
    → deadline j (alive now l) ≡ unexpired now (deadline j l)
unfolding deadline alive
deadline-alive now j [] u = refl
deadline-alive now j (it ∷ rest) u =
    ground (arith, deadline-alive now j rest u.1, deadline-alive now it.fd rest u.1)

pub alive-SortedFrom :
    (now lo : ℕ) (l : List TimerNode) → SortedFrom lo l → SortedFrom lo (alive now l)
unfolding alive
alive-SortedFrom now lo [] s = tt
alive-SortedFrom now lo (it ∷ rest) s =
    ground (arith, alive-SortedFrom now it.expire rest, SortedFrom-le lo it.expire (alive now rest))

pub alive-IsUnique : (now : ℕ) (l : List TimerNode) → IsUnique l → IsUnique (alive now l)
unfolding alive
alive-IsUnique now [] u = tt
alive-IsUnique now (it ∷ rest) u =
    ground (arith, alive-IsUnique now rest, deadline-alive now it.fd rest u.1)
