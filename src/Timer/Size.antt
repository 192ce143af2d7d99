-- ===== src/Timer/Size.antt =====
-- WebServer_Proj/Timer: how many timers there are after each operation.
use cpp_web_server.Base.{
  ℕ, suc, ◌+◌, ◌≡◌, ◌≢◌, refl, ◌∙◌, false, none, List, [], ◌∷◌, length, Option-cases, inl, inr,
  arith,
}
use cpp_web_server.Timer.{
  TimerNode, insert_node, fresh_node, del_node, find_addr, adjust_list, expire_front,
}
use cpp_web_server.Timer.Registry.{listed}
use cpp_web_server.Timer.Deadlines.{deadline, IsUnique, find_addr-some}

pub length-insert_node :
    (node : TimerNode) (l : List TimerNode) → length (insert_node node l) ≡ suc (length l)
unfolding insert_node
length-insert_node node [] = refl
length-insert_node node (it ∷ rest) = ground (arith, length-insert_node node rest)

pub del_node-none : (fd : ℕ) (l : List TimerNode) → deadline fd l ≡ none → del_node fd l ≡ l
unfolding del_node deadline
del_node-none fd [] e = refl
del_node-none fd (it ∷ rest) e = ground (arith, del_node-none fd rest)

pub length-del_node :
    (fd : ℕ) (l : List TimerNode) → deadline fd l ≢ none → suc (length (del_node fd l)) ≡ length l
unfolding del_node deadline
length-del_node fd [] e = absurd (e refl)
length-del_node fd (it ∷ rest) e = ground (arith, length-del_node fd rest)

pub length-adjust_list :
    (now fd : ℕ) (l : List TimerNode) → length (adjust_list now fd l) ≡ length l
unfolding adjust_list
length-adjust_list now fd l = elim (Option-cases (find_addr fd l)) [
  | inl e ↦ rw (e, adjust_list) refl
  | inr (addr, e) ↦
      rw (e, adjust_list)
        (length-insert_node (fresh_node now fd addr) (del_node fd l)
          ∙ length-del_node fd l (find_addr-some fd l e))
]

pub length-expire_front :
    (now : ℕ) (l : List TimerNode)
    → length (expire_front now l).0 + length (expire_front now l).1 ≡ length l
unfolding expire_front
length-expire_front now [] = refl
length-expire_front now (it ∷ rest) = ground (arith, length-expire_front now rest)

-- A list of descriptors without repetition.
abbrev pub Once : List ℕ → Type 0
Once [] = Unit {0}
Once (x ∷ xs) = (listed x xs ≡ false) × Once xs

listed-expire_front :
    (now j : ℕ) (l : List TimerNode) → deadline j l ≡ none → listed j (expire_front now l).0 ≡ false
unfolding expire_front listed deadline
listed-expire_front now j [] e = refl
listed-expire_front now j (it ∷ rest) e = ground (arith, listed-expire_front now j rest)

pub expire_front-Once : (now : ℕ) (l : List TimerNode) → IsUnique l → Once (expire_front now l).0
unfolding expire_front
expire_front-Once now [] u = tt
expire_front-Once now (it ∷ rest) u =
    ground (arith, expire_front-Once now rest u.1, listed-expire_front now it.fd rest u.0)
