-- ===== src/SafeQueue/Joins.antt =====
-- Base/Mutex/producer_consumer_fixed.cpp: that the threads which `main` joins are past their loops, while
-- one thread moves or wakes.
use cpp_web_server.Base.{
  ℕ, zero, suc, ◌≡◌, refl, sym, ap, ◌∙◌, true, some, List, [], ◌∷◌, get_elem?, set, arith,
}
use cpp_web_server.SafeQueue.System.{
  Producer, Consumer, all_finished, is_ended, all_ended, awake_consumer, awake_producer,
  is_sleeping, wake_all, popping, sleeping, processing, ended,
}
use cpp_web_server.SafeQueue.Wakes.{Woken, wake_one-Woken}
use cpp_web_server.SafeQueue.Wakes

pub all_finished-get :
    (ps : List Producer) (k : ℕ) (p : Producer)
    → all_finished ps ≡ true
    → get_elem? ps k ≡ some p
    → p.finished ≡ true
all_finished-get [] k p a e = absurd (ground arith)
all_finished-get (p' ∷ ps) zero p a e =
    let same : p' ≡ p = ground (arith, e) in ground (arith, a, ap Producer.finished same)
all_finished-get (p' ∷ ps) (suc k) p a e = all_finished-get ps k p (ground (arith, a)) e

pub all_ended-get :
    (cs : List Consumer) (k : ℕ) (c : Consumer)
    → all_ended cs ≡ true
    → get_elem? cs k ≡ some c
    → is_ended c ≡ true
all_ended-get [] k c a e = absurd (ground arith)
all_ended-get (c' ∷ cs) zero c a e =
    let same : c' ≡ c = ground (arith, e) in ap is_ended (sym same) ∙ ground (arith, a)
all_ended-get (c' ∷ cs) (suc k) c a e = all_ended-get cs k c (ground (arith, a)) e

pub all_ended-set :
    (cs : List Consumer) (k : ℕ) (c : Consumer)
    → all_ended cs ≡ true
    → is_ended c ≡ true
    → all_ended (set cs k c) ≡ true
all_ended-set [] k c a e = refl
all_ended-set (c' ∷ cs) zero c a e = ground (arith, a, e)
all_ended-set (c' ∷ cs) (suc k) c a e = ground (arith, a, all_ended-set cs k c, e)

pub all_finished-set :
    (ps : List Producer) (k : ℕ) (p : Producer)
    → all_finished ps ≡ true
    → p.finished ≡ true
    → all_finished (set ps k p) ≡ true
all_finished-set [] k p a e = refl
all_finished-set (p' ∷ ps) zero p a e = ground (arith, a, e)
all_finished-set (p' ∷ ps) (suc k) p a e = ground (arith, a, all_finished-set ps k p, e)

pub all_finished-Woken :
    (ps qs : List Producer)
    → Woken Producer.waiting awake_producer ps qs
    → all_finished ps ≡ true
    → all_finished qs ≡ true
all_finished-Woken ps ps' (Wakes.none_waits n) a = a
all_finished-Woken ps qs (Wakes.wakes k p e w) a =
    all_finished-set ps k (awake_producer p) a (all_finished-get ps k p a e)

pub all_finished-wake_all :
    (ps : List Producer)
    → all_finished ps ≡ true
    → all_finished (wake_all Producer.waiting awake_producer ps) ≡ true
all_finished-wake_all [] a = refl
all_finished-wake_all (p ∷ ps) a = ground (arith, a, all_finished-wake_all ps)

pub is_ended-awake : (c : Consumer) → is_ended (awake_consumer c) ≡ is_ended c
is_ended-awake (popping n) = refl
is_ended-awake (sleeping n) = refl
is_ended-awake (processing item n) = refl
is_ended-awake (ended n) = refl

pub all_ended-Woken :
    (cs ds : List Consumer)
    → Woken is_sleeping awake_consumer cs ds
    → all_ended cs ≡ true
    → all_ended ds ≡ true
all_ended-Woken cs cs' (Wakes.none_waits n) a = a
all_ended-Woken cs ds (Wakes.wakes k c e w) a =
    all_ended-set cs k (awake_consumer c) a (is_ended-awake c ∙ all_ended-get cs k c a e)

pub all_ended-wake_all :
    (cs : List Consumer)
    → all_ended cs ≡ true
    → all_ended (wake_all is_sleeping awake_consumer cs) ≡ true
all_ended-wake_all [] a = refl
all_ended-wake_all (ended n ∷ cs) a = all_ended-wake_all cs a
all_ended-wake_all (popping n ∷ cs) a = absurd (ground arith)
all_ended-wake_all (sleeping n ∷ cs) a = absurd (ground arith)
all_ended-wake_all (processing item n ∷ cs) a = absurd (ground arith)
