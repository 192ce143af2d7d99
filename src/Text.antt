-- ===== src/Text.antt =====
-- The operations of `std::string`, `std::stringstream` and `std::to_string`/`std::stoi` that
-- WebServer_Proj/HttpConn uses, over lists of bytes.
pub mod Find
pub mod Number
pub mod Words
use Prim.Native.Char.{code}
use Prim.Native.String.{String}
use cpp_web_server.Base.{
  ℕ, suc, ◌+◌, ◌-◌, ◌*◌, ◌/◌, ◌%◌, Bool, true, false, ◌&&◌, ◌||◌, Option, none, some, List, [], ◌∷◌,
  ◌++◌, ltb, leb, ◌==◌, if◌then◌else◌, take, drop,
}

abbrev pub Bytes : Type 0
Bytes = List ℕ

-- The UTF-8 bytes of one character.
abbrev utf8 : ℕ → Bytes
utf8 c =
    if ltb c 0x80
    then c ∷ []
    else if ltb c 0x800
    then (0xc0 + c / 64) ∷ (0x80 + c % 64) ∷ []
    else if ltb c 0x10000
    then (0xe0 + c / 4096) ∷ (0x80 + c / 64 % 64) ∷ (0x80 + c % 64) ∷ []
    else (0xf0 + c / 262144) ∷ (0x80 + c / 4096 % 64) ∷ (0x80 + c / 64 % 64) ∷ (0x80 + c % 64) ∷ []

-- A string literal of the source.
unfoldable pub text : String → Bytes
text String.[] = []
text (String.◌∷◌ c s) = utf8 (code c) ++ text s

-- `==` of two strings.
unfoldable pub same : Bytes → Bytes → Bool
same [] [] = true
same (x ∷ xs) (y ∷ ys) = (x == y) && same xs ys
same _ _ = false

-- The string begins with `needle`.
unfoldable pub starts_with : Bytes → Bytes → Bool
starts_with [] s = true
starts_with (x ∷ xs) [] = false
starts_with (x ∷ xs) (y ∷ ys) = (x == y) && starts_with xs ys

abbrev pub shift : Option ℕ → Option ℕ
shift none = none
shift (some n) = some (suc n)

-- `s.find(needle)`; `none` is `npos`.
unfoldable pub find : Bytes → Bytes → Option ℕ
unfolding starts_with
find needle [] = if starts_with needle [] then some 0 else none
find needle (c ∷ cs) = if starts_with needle (c ∷ cs) then some 0 else shift (find needle cs)

abbrev pub is_found : Option ℕ → Bool
is_found none = false
is_found (some _) = true

-- `s.find(needle) != npos`
abbrev pub contains : Bytes → Bytes → Bool
contains needle s = is_found (find needle s)

-- `s.substr(pos, count)`, where `pos` is not past the end.
abbrev pub substr : ℕ → ℕ → Bytes → Bytes
substr pos count s = take count (drop pos s)

-- What a C string holds: all before the first NUL.
unfoldable pub c_str : Bytes → Bytes
c_str [] = []
c_str (c ∷ cs) = if c == 0 then [] else c ∷ c_str cs

-- `isspace` in the C locale.
unfoldable pub is_space : ℕ → Bool
is_space c = (c == 32) || (leb 9 c && leb c 13)

unfoldable pub skip_space : Bytes → Bytes
unfolding is_space
skip_space [] = []
skip_space (c ∷ cs) = let rest = skip_space cs in if is_space c then rest else c ∷ cs

-- A maximal run without white space, and what follows it.
unfoldable pub word : Bytes → Bytes × Bytes
unfolding is_space
word [] = ([], [])
word (c ∷ cs) = let rest = word cs in if is_space c then ([], c ∷ cs) else (c ∷ rest.0, rest.1)

-- `ss >> target`: where no word is left the target keeps its value and the stream stays empty.
unfoldable pub read_word : Bytes → Bytes → Bytes × Bytes
unfolding skip_space word
read_word target stream = pick (skip_space stream)
  where
    pick : Bytes → Bytes × Bytes
    pick [] = (target, [])
    pick (c ∷ cs) = word (c ∷ cs)
