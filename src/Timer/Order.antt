-- ===== src/Timer/Order.antt =====
-- The list of WebServer_Proj/Timer stays in ascending order of the deadlines, and what that gives.
use mathlib.Core.List.Perm
use cpp_web_server.Base.{
  ℕ, ◌≤◌, ◌≡◌, refl, false, List, [], ◌∷◌, ◌++◌, map, Perm, leb, ltb, Bool-cases, Option-cases,
  if◌then◌else◌, inl, inr, arith,
}
use cpp_web_server.Timer.{
  TimerNode, insert_node, fresh_node, del_node, find_addr, adjust_list, expire_front,
}

-- The deadlines ascend from `lo` on.
abbrev pub SortedFrom : ℕ → List TimerNode → Type 0
SortedFrom lo [] = Unit {0}
SortedFrom lo (it ∷ rest) = (lo ≤ it.expire) × SortedFrom it.expire rest

abbrev pub IsSorted : List TimerNode → Type 0
IsSorted = SortedFrom 0

pub SortedFrom-le : (lo hi : ℕ) (l : List TimerNode) → lo ≤ hi → SortedFrom hi l → SortedFrom lo l
SortedFrom-le lo hi [] h s = tt
SortedFrom-le lo hi (it ∷ rest) h s = (omega arith, s.1)

pub insert_node-SortedFrom :
    (node : TimerNode) (lo : ℕ) (l : List TimerNode)
    → lo ≤ node.expire
    → SortedFrom lo l
    → SortedFrom lo (insert_node node l)
unfolding insert_node
insert_node-SortedFrom node lo [] h s = (h, tt)
insert_node-SortedFrom node lo (it ∷ rest) h s =
    ground (arith, insert_node-SortedFrom node it.expire rest)

pub del_node-SortedFrom :
    (fd lo : ℕ) (l : List TimerNode) → SortedFrom lo l → SortedFrom lo (del_node fd l)
unfolding del_node
del_node-SortedFrom fd lo [] s = tt
del_node-SortedFrom fd lo (it ∷ rest) s =
    ground (arith, del_node-SortedFrom fd it.expire rest, SortedFrom-le lo it.expire rest)

pub adjust_list-IsSorted :
    (now fd : ℕ) (l : List TimerNode) → IsSorted l → IsSorted (adjust_list now fd l)
unfolding adjust_list
adjust_list-IsSorted now fd l s = elim (Option-cases (find_addr fd l)) [
  | inl e ↦ rw (e, adjust_list) s
  | inr (addr, e) ↦
      rw (e, adjust_list)
        (insert_node-SortedFrom (fresh_node now fd addr) 0 (del_node fd l) (omega arith)
          (del_node-SortedFrom fd 0 l s))
]

-- The nodes whose deadline has passed, and the others, wherever they stand.
unfoldable pub due : ℕ → List TimerNode → List TimerNode
due now [] = []
due now (it ∷ rest) = if leb it.expire now then it ∷ due now rest else due now rest

unfoldable pub alive : ℕ → List TimerNode → List TimerNode
alive now [] = []
alive now (it ∷ rest) = if leb it.expire now then alive now rest else it ∷ alive now rest

-- Past the first deadline that has not come, none has.
due-later :
    (now lo : ℕ) (l : List TimerNode) → SortedFrom lo l → leb lo now ≡ false → due now l ≡ []
unfolding due
due-later now lo [] s h = refl
due-later now lo (it ∷ rest) s h = ground (arith, due-later now it.expire rest)

alive-later :
    (now lo : ℕ) (l : List TimerNode) → SortedFrom lo l → leb lo now ≡ false → alive now l ≡ l
unfolding alive
alive-later now lo [] s h = refl
alive-later now lo (it ∷ rest) s h = ground (arith, alive-later now it.expire rest)

-- On a sorted list the early stop of `tick` loses nothing.
pub expire_front-due :
    (now lo : ℕ) (l : List TimerNode)
    → SortedFrom lo l
    → ((expire_front now l).0 ≡ map (λ it. it.fd) (due now l))
      × ((expire_front now l).1 ≡ alive now l)
unfolding expire_front due alive
expire_front-due now lo [] s = (refl, refl)
expire_front-due now lo (it ∷ rest) s = ground (
  arith,
  expire_front-due now it.expire rest,
  due-later now it.expire rest,
  alive-later now it.expire rest,
)

pub insert_node-perm :
    (node : TimerNode) (l : List TimerNode) → Perm (insert_node node l) (node ∷ l)
unfolding insert_node
insert_node-perm node [] = Perm.rfl
insert_node-perm node (it ∷ rest) = elim (Bool-cases (ltb node.expire it.expire)) [
  | inl here ↦ rw here Perm.rfl
  | inr later ↦
      rw later (Perm.trans (Perm.cons it (insert_node-perm node rest)) (Perm.swap node it rest))
]

-- A node that is not earlier than any other goes to the end.
abbrev pub Before : ℕ → List TimerNode → Type 0
Before hi [] = Unit {0}
Before hi (it ∷ rest) = (it.expire ≤ hi) × Before hi rest

pub insert_node-last :
    (node : TimerNode) (l : List TimerNode)
    → Before node.expire l
    → insert_node node l ≡ l ++ node ∷ []
unfolding insert_node
insert_node-last node [] h = refl
insert_node-last node (it ∷ rest) h = ground (arith, insert_node-last node rest h.1)
