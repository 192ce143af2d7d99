-- ===== src/Timer/Registry.antt =====
-- WebServer_Proj/Timer as a map from descriptors to deadlines, which forgets the list.
use cpp_web_server.Base.{
  ℕ, ◌+◌, ◌*◌, ◌≡◌, refl, Bool, true, false, Option, none, some, List, [], ◌∷◌, map, leb, ◌==◌,
  if◌then◌else◌, arith,
}
use cpp_web_server.Kernel.{SockAddr, alarm}
use cpp_web_server.Timer.{
  TimerNode, Timer, timeslot, fresh_node, add_timer, del_timer, adjust_timer, tick,
}
use cpp_web_server.Timer.Order.{
  IsSorted, due, expire_front-due, insert_node-SortedFrom, del_node-SortedFrom,
  adjust_list-IsSorted,
}
use cpp_web_server.Timer.Deadlines.{
  deadline, IsUnique, deadline-insert_node, insert_node-IsUnique, deadline-del_node,
  del_node-IsUnique, deadline-adjust_list, adjust_list-IsUnique, unexpired, deadline-alive,
  alive-SortedFrom, alive-IsUnique,
}

-- The abstract view: a deadline for each descriptor that has one.
abbrev pub Registry : Type 0
Registry = ℕ → Option ℕ

pub data TimerOp : Type 0 where
  adds : ℕ → SockAddr → TimerOp
  adjusts dels : ℕ → TimerOp
  ticks : TimerOp

unfoldable pub run_op : ℕ → TimerOp → Timer → Timer
unfolding add_timer adjust_timer del_timer tick
run_op now (adds fd addr) t = add_timer now fd addr t
run_op now (adjusts fd) t = adjust_timer now fd t
run_op now (dels fd) t = del_timer fd t
run_op now ticks t = (tick now t).1

abbrev pub registry_op : ℕ → TimerOp → Registry → Registry
registry_op now (adds fd addr) r j = if fd == j then some (now + 3 * timeslot) else r j
registry_op now (adjusts fd) r j =
    if fd == j then elim (r fd) [ none ↦ none | some d ↦ some (now + 3 * timeslot) ] else r j
registry_op now (dels fd) r j = if fd == j then none else r j
registry_op now ticks r j = unexpired now (r j)

-- Only a descriptor without a timer is given one.
abbrev pub Allowed : TimerOp → Timer → Type 0
Allowed (adds fd addr) t = deadline fd t.list_ ≡ none
Allowed _ t = Unit

pub record IsValid (t : Timer) : Type 0 where
  pub sorted : IsSorted t.list_
  pub unique : IsUnique t.list_

-- Every operation keeps the list in order and one node to a descriptor; `add_timer` on the condition
-- that the descriptor has no timer yet.
pub run_op-IsValid :
    (now : ℕ) (op : TimerOp) (t : Timer) → Allowed op t → IsValid t → IsValid (run_op now op t)
unfolding run_op
run_op-IsValid now (adds fd addr) t a v = record {
  sorted = insert_node-SortedFrom (fresh_node now fd addr) 0 t.list_ (omega arith) v.sorted;
  unique = insert_node-IsUnique (fresh_node now fd addr) t.list_ a v.unique;
}
run_op-IsValid now (adjusts fd) t a v = record {
  sorted = adjust_list-IsSorted now fd t.list_ v.sorted;
  unique = adjust_list-IsUnique now fd t.list_ v.unique;
}
run_op-IsValid now (dels fd) t a v = record {
  sorted = del_node-SortedFrom fd 0 t.list_ v.sorted;
  unique = del_node-IsUnique fd t.list_ v.unique;
}
run_op-IsValid now ticks t a v = record {
  sorted = rw (expire_front-due now 0 t.list_ v.sorted).1 (alive-SortedFrom now 0 t.list_ v.sorted);
  unique = rw (expire_front-due now 0 t.list_ v.sorted).1 (alive-IsUnique now t.list_ v.unique);
}

-- Seen as a map from descriptors to deadlines, each operation on a valid list is the operation on the
-- map: a new or refreshed timer runs to three time slots from now, a refresh of a descriptor without
-- a timer does nothing, and `tick` drops exactly the deadlines that have passed.
pub registry-run_op :
    (now : ℕ) (op : TimerOp) (t : Timer) (j : ℕ)
    → Allowed op t
    → IsValid t
    → deadline j (run_op now op t).list_ ≡ registry_op now op (λ k. deadline k t.list_) j
unfolding run_op
registry-run_op now (adds fd addr) t j a v =
    deadline-insert_node (fresh_node now fd addr) j t.list_ a
registry-run_op now (adjusts fd) t j a v = deadline-adjust_list now fd j t.list_ v.unique
registry-run_op now (dels fd) t j a v = deadline-del_node fd j t.list_ v.unique
registry-run_op now ticks t j a v =
    rw (expire_front-due now 0 t.list_ v.sorted).1 (deadline-alive now j t.list_ v.unique)

-- `fd` stands in a list of descriptors.
unfoldable pub listed : ℕ → List ℕ → Bool
listed fd [] = false
listed fd (x ∷ xs) = if x == fd then true else listed fd xs

listed-due :
    (now j : ℕ) (l : List TimerNode)
    → IsUnique l
    → listed j (map (λ it. it.fd) (due now l))
      ≡ elim (deadline j l) [ none ↦ false | some d ↦ leb d now ]
unfolding listed due deadline
listed-due now j [] u = refl
listed-due now j (it ∷ rest) u =
    ground (arith, listed-due now j rest u.1, listed-due now it.fd rest u.1)

-- On a valid list `tick` reports exactly the descriptors whose deadline has passed, keeps the
-- others, and sets the next alarm.
pub tick-listed :
    (now : ℕ) (t : Timer) (j : ℕ)
    → IsValid t
    → (listed j (tick now t).0 ≡ elim (deadline j t.list_) [ none ↦ false | some d ↦ leb d now ])
      × (deadline j (tick now t).1.list_ ≡ unexpired now (deadline j t.list_))
      × ((tick now t).2 ≡ alarm timeslot ∷ [])
unfolding tick
tick-listed now t j v = (
  rw (expire_front-due now 0 t.list_ v.sorted).0 (listed-due now j t.list_ v.unique),
  rw (expire_front-due now 0 t.list_ v.sorted).1 (deadline-alive now j t.list_ v.unique),
  refl,
)
