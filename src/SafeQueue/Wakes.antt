-- ===== src/SafeQueue/Wakes.antt =====
-- Base/Mutex/producer_consumer_fixed.cpp: what the notifications do to the threads that wait.
use cpp_web_server.Base.{
  ℕ, zero, suc, ◌≡◌, refl, ap, inl, inr, Bool, true, false, Option, none, some, List, [], ◌∷◌,
  length, get_elem?, set, length-set, if◌then◌else◌, Bool-cases, arith,
}
use cpp_web_server.SafeQueue.System.{wake_all, wake_first, wake_if, wake_one}
use cpp_web_server.SafeQueue.Rounds.{sum_of, sum_of-set}

module _ {A : Type 0} (waits : A → Bool) (awake : A → A) where
  abbrev pub waiting_one : A → ℕ
  waiting_one x = if waits x then 1 else 0

  -- One thread wakes, or none waits.
  pub data Woken (xs : List A) : List A → Type 0 where
    none_waits : sum_of waiting_one xs ≡ 0 → Woken xs xs
    wakes :
        (k : ℕ) (x : A) → get_elem? xs k ≡ some x → waits x ≡ true → Woken xs (set xs k (awake x))

  later_woken : (x : A) (xs ys : List A) → waits x ≡ false → Woken xs ys → Woken (x ∷ xs) (x ∷ ys)
  later_woken x xs ys e (none_waits n) = none_waits (rw e (omega (arith, n)))
  later_woken x xs ys e (wakes k y g w) = wakes (suc k) y g w

  wake_first-Woken : (xs : List A) → Woken xs (wake_first waits awake xs)
  wake_first-Woken [] = none_waits refl
  wake_first-Woken (x ∷ xs) = go (waits x) refl (wake_first-Woken xs)
    where
      go :
          (b : Bool)
          → waits x ≡ b
          → Woken xs (wake_first waits awake xs)
          → Woken (x ∷ xs) (if b then awake x ∷ xs else x ∷ wake_first waits awake xs)
      go true e later = wakes zero x refl e
      go false e later = later_woken x xs (wake_first waits awake xs) e later

  pub wake_one-Woken : (k : ℕ) (xs : List A) → Woken xs (wake_one waits awake k xs)
  wake_one-Woken k xs = go (get_elem? xs k) refl
    where
      chosen :
          (x : A) (b : Bool)
          → get_elem? xs k ≡ some x
          → waits x ≡ b
          → Woken xs (if b then set xs k (awake x) else wake_first waits awake xs)
      chosen x true e w = wakes k x e w
      chosen x false e w = wake_first-Woken xs

      go : (o : Option A) → get_elem? xs k ≡ o → Woken xs (wake_if waits awake k o xs)
      go none e = wake_first-Woken xs
      go (some x) e = chosen x (waits x) e refl

  -- A sum that does not look at who waits.
  pub sum_of-Woken :
      (f : A → ℕ) (xs ys : List A)
      → ((x : A) → f (awake x) ≡ f x)
      → Woken xs ys
      → sum_of f ys ≡ sum_of f xs
  sum_of-Woken f xs xs' same (none_waits n) = refl
  sum_of-Woken f xs ys same (wakes k x e w) = omega (arith, sum_of-set f xs k x (awake x) e, same x)

  pub sum_of-wake_all :
      (f : A → ℕ) (xs : List A)
      → ((x : A) → f (awake x) ≡ f x)
      → sum_of f (wake_all waits awake xs) ≡ sum_of f xs
  sum_of-wake_all f [] same = refl
  sum_of-wake_all f (x ∷ xs) same = elim (Bool-cases (waits x)) [
    | inl e ↦ rw e (omega (arith, sum_of-wake_all f xs same, same x))
    | inr e ↦ rw e (omega (arith, sum_of-wake_all f xs same))
  ]

  pub none_waits-wake_all :
      (xs : List A)
      → ((x : A) → waits (awake x) ≡ false)
      → sum_of waiting_one (wake_all waits awake xs) ≡ 0
  none_waits-wake_all [] woken = refl
  none_waits-wake_all (x ∷ xs) woken = elim (Bool-cases (waits x)) [
    | inl e ↦ rw (e, woken x) (omega (arith, none_waits-wake_all xs woken))
    | inr e ↦ rw (e, e) (omega (arith, none_waits-wake_all xs woken))
  ]

  pub length-Woken : (xs ys : List A) → Woken xs ys → length ys ≡ length xs
  length-Woken xs xs' (none_waits n) = refl
  length-Woken xs ys (wakes k x e w) = length-set xs k (awake x)

  pub length-wake_all : (xs : List A) → length (wake_all waits awake xs) ≡ length xs
  length-wake_all [] = refl
  length-wake_all (x ∷ xs) = ap suc (length-wake_all xs)
