-- ===== src/Text/Words.antt =====
-- What `>>` reads of a text that is known to begin with a word.
use cpp_web_server.Base.{◌≡◌, ◌≢◌, refl, false, [], ◌∷◌, ◌++◌, arith}
use cpp_web_server.Text.{Bytes, is_space, word, read_word}

-- No white space within.
abbrev pub Solid : Bytes → Type 0
Solid [] = Unit {0}
Solid (c ∷ cs) = (is_space c ≡ false) × Solid cs

pub word-append-space : (w rest : Bytes) → Solid w → word (w ++ 32 ∷ rest) ≡ (w, 32 ∷ rest)
unfolding word
word-append-space [] rest s = refl
word-append-space (c ∷ cs) rest s = ground (arith, word-append-space cs rest s.1)

pub word_self : (w : Bytes) → Solid w → word w ≡ (w, [])
unfolding word
word_self [] s = refl
word_self (c ∷ cs) s = ground (arith, word_self cs s.1)

-- A word up to the next space.
pub read_word-space :
    (target w rest : Bytes) → w ≢ [] → Solid w → read_word target (w ++ 32 ∷ rest) ≡ (w, 32 ∷ rest)
unfolding read_word
read_word-space target [] rest n s = absurd (n refl)
read_word-space target (c ∷ cs) rest n s = ground (arith, word-append-space (c ∷ cs) rest s)

-- The space in front is skipped.
pub read_word_skip : (target w : Bytes) → w ≢ [] → Solid w → read_word target (32 ∷ w) ≡ (w, [])
unfolding read_word
read_word_skip target [] n s = absurd (n refl)
read_word_skip target (c ∷ cs) n s = ground (arith, word_self (c ∷ cs) s)

pub read_word_skip-space :
    (target w rest : Bytes)
    → w ≢ []
    → Solid w
    → read_word target (32 ∷ (w ++ 32 ∷ rest)) ≡ (w, 32 ∷ rest)
unfolding read_word
read_word_skip-space target [] rest n s = absurd (n refl)
read_word_skip-space target (c ∷ cs) rest n s = ground (arith, word-append-space (c ∷ cs) rest s)
