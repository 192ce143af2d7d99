-- ===== src/Stages/Loop/Accept.antt =====
-- HTTP-Protocol: accepting queues nothing, and disarms nothing.
use cpp_web_server.Base.{
  ℕ, ◌==◌, ◌≡◌, refl, sym, ap, ◌∙◌, Bool, true, false, none, some, List, [], ◌∷◌, ◌++◌,
  if◌then◌else◌, ==_iff, Bool-cases, inl, inr, arith,
}
use cpp_web_server.Kernel.{Syscall}
use cpp_web_server.Stages.Loop.{Stage, Serving, Handled, set_user, add_calls, accept_all}
use cpp_web_server.Stages.Reply.{hang_up}
use cpp_web_server.Stages.Watch.{Watch, unopened, armed, seen, seen_all, parked, seen-append}
use cpp_web_server.Base.{times}
use cpp_web_server.Stages.Loop.Reach.{AllNew}

pub seen-hang_up :
    (fd i : ℕ) (w : Watch) → seen i (hang_up fd) w ≡ (if fd == i then unopened else w)
seen-hang_up fd i w = ground arith

pub seen-add_calls :
    (fd i : ℕ) (added : Bool) (w : Watch)
    → seen i (add_calls fd added) w ≡ (if fd == i then (if added then armed else unopened) else w)
seen-add_calls fd i true w = ground arith
seen-add_calls fd i false w = ground arith

parked-add_calls :
    (fd i : ℕ) (added : Bool) (w : ℕ → Watch)
    → w fd ≡ unopened
    → parked (seen i (add_calls fd added) (w i)) ≡ parked (w i)
parked-add_calls fd i added w new =
    rw (seen-add_calls fd i added (w i)) (elim (Bool-cases (fd == i)) [
      | inl e ↦
          (let same : w i ≡ unopened = ap w (sym ((==_iff fd i).0 e)) ∙ new in
            rw (e, same) (parked_new added))
      | inr e ↦ rw e
    ])
  where
    parked_new : (b : Bool) → parked (if b then armed else unopened) ≡ 0
    parked_new true = refl
    parked_new false = refl

module _ {S E : Type 0} (stage : Stage S E) where
  -- What follows the first descriptor that is accepted.
  pub record Accepted (fd : ℕ) (added : Bool) (rest : List (ℕ × Bool)) (s t : Serving S E)
      (calls : List Syscall) : Type 0 where
    pub more : List Syscall
    pub then_all :
        accept_all stage rest (set_user fd (stage.fresh fd (s.users fd)) s) ≡ some (t, more)
    pub all_calls : add_calls fd added ++ more ≡ calls

  pub accept_all-Accepted :
      (fd : ℕ) (added : Bool) (rest : List (ℕ × Bool)) (s t : Serving S E) (calls : List Syscall)
      → accept_all stage ((fd, added) ∷ rest) s ≡ some (t, calls)
      → Accepted fd added rest s t calls
  unfolding accept_all
  accept_all-Accepted fd added rest s t calls e = go (accept_all stage rest s') refl
    where
      s' : Serving S E
      s' = set_user fd (stage.fresh fd (s.users fd)) s

      go : (r : Handled S E) → accept_all stage rest s' ≡ r → Accepted fd added rest s t calls
      go none m = absurd (ground arith)
      go (some (t', more)) m = record {
        more = more;
        then_all = ground arith;
        all_calls = ground arith;
      }

  -- Accepting queues nothing, and disarms nothing.
  pub accept_all-parked :
      (accepted : List (ℕ × Bool)) (s t : Serving S E) (calls : List Syscall) (w : ℕ → Watch)
      → AllNew accepted w
      → accept_all stage accepted s ≡ some (t, calls)
      → (i : ℕ) → (times i t.tasks ≡ times i s.tasks) × (parked (seen i calls (w i)) ≡ parked (w i))
  unfolding accept_all
  accept_all-parked [] s t calls w a e i = ground arith
  accept_all-parked ((fd, added) ∷ rest) s t calls w (new, a) e i =
      let r = accept_all-Accepted fd added rest s t calls e in
      let (q, p) =
        accept_all-parked rest _ t r.more (seen_all (add_calls fd added) w) a r.then_all i in
      (
        q,
        ap (λ cs. parked (seen i cs (w i))) (sym r.all_calls)
            ∙ ap parked (seen-append i (add_calls fd added) r.more (w i))
            ∙ p
            ∙ parked-add_calls fd i added w new,
      )
