-- ===== src/Text/Find.antt =====
-- What `std::string::find` gives, where the text is known to hold the needle.
use Prim.Native.Nat.add
use native.Mathlib.Nat.{zero-add}
use cpp_web_server.Base.{
  ℕ, zero, suc, ◌+◌, ◌≤◌, ◌≡◌, ◌≢◌, refl, ap, true, false, none, some, [], ◌∷◌, ◌++◌, length, take,
  drop, Bool-cases, Option-cases, inl, inr, arith,
}
use cpp_web_server.Text.{Bytes, starts_with, find}

-- The byte `b` does not stand in the text.
abbrev pub Lacks : ℕ → Bytes → Type 0
Lacks b [] = Unit {0}
Lacks b (c ∷ cs) = (c ≢ b) × Lacks b cs

abbrev pub crlf : Bytes
crlf = 13 ∷ 10 ∷ []

-- A line without a carriage return ends at the first CR LF.
pub find-line :
    (line rest : Bytes) → Lacks 13 line → find crlf (line ++ 13 ∷ 10 ∷ rest) ≡ some (length line)
unfolding find
find-line [] rest l = ground arith
find-line (c ∷ cs) rest l = ground (arith, find-line cs rest l.1)

-- No CR LF stands in a text without a carriage return.
pub find-Lacks : (s : Bytes) → Lacks 13 s → find crlf s ≡ none
unfolding find
find-Lacks [] l = refl
find-Lacks (c ∷ cs) l = ground (arith, find-Lacks cs l.1)

starts_with-length : (needle s : Bytes) → starts_with needle s ≡ true → length needle ≤ length s
unfolding starts_with
starts_with-length [] s h = omega arith
starts_with-length (x ∷ xs) [] h = cc
starts_with-length (x ∷ xs) (y ∷ ys) h = ground (arith, starts_with-length xs ys)

-- What is found lies within the text.
pub find-le : (needle s : Bytes) {p : ℕ} → find needle s ≡ some p → p + length needle ≤ length s
unfolding find
find-le needle [] {p} e = elim (Bool-cases (starts_with needle [])) [
  | inl hit ↦ ground (arith, starts_with-length needle [] hit)
  | inr miss ↦ absurd (ground arith)
]
find-le needle (c ∷ cs) {p} e = elim (Bool-cases (starts_with needle (c ∷ cs))) [
  | inl hit ↦ ground (arith, starts_with-length needle (c ∷ cs) hit)
  | inr miss ↦ elim (Option-cases (find needle cs)) [
    | inl m ↦ absurd (ground arith)
    | inr (q, m) ↦ ground (arith, find-le needle cs m)
  ]
]

starts_with-append :
    (needle a b : Bytes)
    → length needle ≤ length a
    → starts_with needle (a ++ b) ≡ starts_with needle a
unfolding starts_with
starts_with-append [] a b h = refl
starts_with-append (x ∷ xs) [] b h = elim h [ ]
starts_with-append (x ∷ xs) (y ∷ ys) b h = ground (arith, starts_with-append xs ys b)

-- What is found in the front of a text is found there in the whole.
pub find-append :
    (needle a b : Bytes) {p : ℕ} → find needle a ≡ some p → find needle (a ++ b) ≡ some p
unfolding find
find-append [] [] [] {p} e = e
find-append [] [] (x ∷ b) {p} e = e
find-append (x ∷ xs) [] b {p} e = cc
find-append needle (c ∷ cs) b {p} e = elim (Bool-cases (starts_with needle (c ∷ cs))) [
  | inl hit ↦
      ground (arith, starts_with-length needle (c ∷ cs) hit, starts_with-append needle (c ∷ cs) b)
  | inr miss ↦ elim (Option-cases (find needle cs)) [
    | inl m ↦ absurd (ground arith)
    | inr (q, m) ↦ ground (
      arith,
      find-le needle cs m,
      starts_with-append needle (c ∷ cs) b,
      find-append needle cs b m,
    )
  ]
]

pub drop-append : (n : ℕ) (a b : Bytes) → n ≤ length a → drop n (a ++ b) ≡ drop n a ++ b
drop-append zero a b h = refl
drop-append (suc n) [] b h = elim h [ ]
drop-append (suc n) (x ∷ xs) b h = drop-append n xs b (omega arith)

pub take-append : (n : ℕ) (a b : Bytes) → n ≤ length a → take n (a ++ b) ≡ take n a
take-append zero a b h = refl
take-append (suc n) [] b h = elim h [ ]
take-append (suc n) (x ∷ xs) b h = ap (◌∷◌ x) (take-append n xs b (omega arith))

pub take-length-append : (a b : Bytes) → take (length a) (a ++ b) ≡ a
take-length-append [] b = refl
take-length-append (x ∷ xs) b = ap (◌∷◌ x) (take-length-append xs b)

pub drop-length-append : (a b : Bytes) → drop (length a) (a ++ b) ≡ b
drop-length-append [] b = refl
drop-length-append (x ∷ xs) b = drop-length-append xs b

drop-nil : (n : ℕ) → ◌≡◌ {A = Bytes} [] (drop n [])
drop-nil zero = refl
drop-nil (suc n) = refl

pub drop-add : (m n : ℕ) (s : Bytes) → drop (m + n) s ≡ drop n (drop m s)
drop-add zero n s = rw zero-add
drop-add (suc m) n [] = rw (add.suc m n) (drop-nil n)
drop-add (suc m) n (x ∷ xs) = rw (add.suc m n) (drop-add m n xs)

-- A text that lacks the needle's first byte does not hold the needle.
pub find-Lacks_head : (x : ℕ) (xs s : Bytes) → Lacks x s → find (x ∷ xs) s ≡ none
unfolding find
find-Lacks_head x xs [] l = refl
find-Lacks_head x xs (c ∷ cs) l = ground (arith, find-Lacks_head x xs cs l.1)

pub starts_with_self : (a b : Bytes) → starts_with a (a ++ b) ≡ true
unfolding starts_with
starts_with_self [] b = refl
starts_with_self (x ∷ xs) b = ground (arith, starts_with_self xs b)

pub Lacks-append : (b : ℕ) (s t : Bytes) → Lacks b s → Lacks b t → Lacks b (s ++ t)
Lacks-append b [] t h k = k
Lacks-append b (x ∷ xs) t h k = (h.0, Lacks-append b xs t h.1 k)

-- A needle that is neither in front nor behind the first byte is not in the text.
pub find-cons_none :
    (needle : Bytes) (c : ℕ) (cs : Bytes)
    → starts_with needle (c ∷ cs) ≡ false
    → find needle cs ≡ none
    → find needle (c ∷ cs) ≡ none
unfolding find
find-cons_none needle c cs h e = ground arith

-- A needle behind a text that lacks its first byte is found there.
pub find-first :
    (x : ℕ) (xs s rest : Bytes)
    → Lacks x s
    → find (x ∷ xs) (s ++ ((x ∷ xs) ++ rest)) ≡ some (length s)
unfolding find
find-first x xs [] rest l = ground (arith, starts_with_self (x ∷ xs) rest)
find-first x xs (c ∷ cs) rest l = ground (arith, find-first x xs cs rest l.1)
