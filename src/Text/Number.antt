-- ===== src/Text/Number.antt =====
-- `std::to_string` and `std::stoi`, and that each reads the other.
use cpp_web_server.Base.{
  ℕ, zero, suc, ◌+◌, ◌-◌, ◌*◌, ◌/◌, ◌%◌, ◌≤◌, ◌<◌, ◌≡◌, Bool, true, false, ◌&&◌, [], ◌∷◌, ℤ, pos,
  negsuc, ltb, leb, ◌==◌, if◌then◌else◌, arith, ◌∙◌,
}
use cpp_web_server.Text.{Bytes, skip_space}
use cpp_web_server.Text.Find.{Lacks}

-- The decimal digits of `n`, in front of `acc`.
unfoldable pub digits_onto : ℕ → ℕ → Bytes → Bytes
digits_onto zero n acc = acc
digits_onto (suc fuel) n acc =
    let more = digits_onto fuel (n / 10) ((48 + n % 10) ∷ acc) in
    if ltb n 10 then (48 + n) ∷ acc else more

-- `std::to_string` of a number that is not negative: it has at most n + 1 digits.
unfoldable pub to_string : ℕ → Bytes
unfolding digits_onto
to_string n = digits_onto (suc n) n []

abbrev pub is_digit : ℕ → Bool
is_digit c = leb 48 c && leb c 57

-- `strtol` base 10 on the digits in front.
unfoldable pub read_digits : ℕ → Bytes → ℕ
read_digits acc [] = acc
read_digits acc (c ∷ cs) =
    let more = read_digits (acc * 10 + (c - 48)) cs in if is_digit c then more else acc

abbrev pub starts_digit : Bytes → Bool
starts_digit [] = false
starts_digit (c ∷ cs) = is_digit c

pub data Stoi : Type 0 where
  parsed : ℤ → Stoi
  invalid_argument out_of_range : Stoi

-- INT_MAX
abbrev pub int_max : ℕ
int_max = 2147483647

abbrev pub stoi_positive : Bytes → Stoi
stoi_positive s =
    if starts_digit s
    then if leb (read_digits 0 s) int_max then parsed (pos (read_digits 0 s)) else out_of_range
    else invalid_argument

abbrev pub negate : ℕ → ℤ
negate zero = pos 0
negate (suc n) = negsuc n

abbrev pub stoi_negative : Bytes → Stoi
stoi_negative s =
    if starts_digit s
    then if leb (read_digits 0 s) (int_max + 1)
      then parsed (negate (read_digits 0 s))
      else out_of_range
    else invalid_argument

abbrev pub stoi_signed : Bytes → Stoi
stoi_signed [] = invalid_argument
stoi_signed (c ∷ cs) =
    if c == b'-'
    then stoi_negative cs
    else if c == b'+'
    then stoi_positive cs
    else stoi_positive (c ∷ cs)

unfoldable pub stoi : Bytes → Stoi
unfolding skip_space read_digits
stoi s = stoi_signed (skip_space s)

-- A number and its digits, most significant first.
abbrev pub AllDigits : Bytes → Type 0
AllDigits [] = Unit {0}
AllDigits (c ∷ cs) = (is_digit c ≡ true) × AllDigits cs

read_digits-digits_onto :
    (fuel n : ℕ) (acc : Bytes)
    → n < fuel
    → read_digits 0 (digits_onto fuel n acc) ≡ read_digits n acc
unfolding digits_onto read_digits
read_digits-digits_onto zero n acc h = elim h [ ]
read_digits-digits_onto (suc fuel) n acc h =
    ground (arith, read_digits-digits_onto fuel (n / 10) ((48 + n % 10) ∷ acc))

pub read_digits-to_string : (n : ℕ) → read_digits 0 (to_string n) ≡ n
unfolding to_string read_digits
read_digits-to_string n = read_digits-digits_onto (suc n) n [] (omega arith)

starts_digit-digits_onto :
    (fuel n : ℕ) (acc : Bytes) → n < fuel → starts_digit (digits_onto fuel n acc) ≡ true
unfolding digits_onto
starts_digit-digits_onto zero n acc h = elim h [ ]
starts_digit-digits_onto (suc fuel) n acc h =
    ground (arith, starts_digit-digits_onto fuel (n / 10) ((48 + n % 10) ∷ acc))

pub starts_digit-to_string : (n : ℕ) → starts_digit (to_string n) ≡ true
unfolding to_string
starts_digit-to_string n = starts_digit-digits_onto (suc n) n [] (omega arith)

-- No byte but a digit stands among the digits.
digits_onto-Lacks :
    (b fuel n : ℕ) (acc : Bytes)
    → is_digit b ≡ false
    → Lacks b acc
    → Lacks b (digits_onto fuel n acc)
unfolding digits_onto
digits_onto-Lacks b zero n acc h l = l
digits_onto-Lacks b (suc fuel) n acc h l =
    ground (arith, digits_onto-Lacks b fuel (n / 10) ((48 + n % 10) ∷ acc) h)

pub to_string-Lacks : (b n : ℕ) → is_digit b ≡ false → Lacks b (to_string n)
unfolding to_string
to_string-Lacks b n h = digits_onto-Lacks b (suc n) n [] h tt

stoi_signed_digits :
    (s : Bytes)
    → starts_digit s ≡ true
    → read_digits 0 s ≤ int_max
    → stoi (32 ∷ s) ≡ parsed (pos (read_digits 0 s))
unfolding stoi
stoi_signed_digits [] h le = cc
stoi_signed_digits (c ∷ cs) h le = ground arith

-- `stoi` reads back what `to_string` writes, with the space that a header has in front.
pub stoi-to_string : (n : ℕ) → n ≤ int_max → stoi (32 ∷ to_string n) ≡ parsed (pos n)
stoi-to_string n h =
    stoi_signed_digits (to_string n) (starts_digit-to_string n) (rw (read_digits-to_string n) h)
    ∙ rw (read_digits-to_string n)
