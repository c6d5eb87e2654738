-- ===== src/Python/Text.antt =====
-- Python's `str`: whitespace and `strip`, prefixes and suffixes, `split("/")`, and the decimal
-- form of an integer.
use Prim.Native.Char.{Char, code}
use Prim.Native.String as Str
use Prim.Native.String.{[], ◌∷◌}
use tributo_knova.Prelude.{
  ℕ, ◌≡◌, refl, zero, suc, ◌/◌, ◌%◌, String, Bool, true, false, Option, none, some, ◌&&◌, ◌||◌,
  List, [], ◌∷◌, ◌==◌, leb, eqb, if◌then◌else◌,
}
use tributo_knova.Python.Number.{ℤ, pos, negsuc}

-- the code points that `str.strip` takes for whitespace
pub is_space : ℕ → Bool
is_space c =
    (leb 9 c && leb c 13)
    || (leb 28 c && leb c 32)
    || eqb c 0x85
    || eqb c 0xA0
    || eqb c 0x1680
    || (leb 0x2000 c && leb c 0x200A)
    || (leb 0x2028 c && leb c 0x2029)
    || eqb c 0x202F
    || eqb c 0x205F
    || eqb c 0x3000

pub lstrip : String → String
lstrip [] = []
lstrip (c ∷ s) = let rest = lstrip s in if is_space (code c) then rest else c ∷ s

pub rstrip : String → String
rstrip [] = []
rstrip (c ∷ s) = let rest = rstrip s in if rest == "" && is_space (code c) then "" else c ∷ rest

-- s.strip()
unfoldable pub strip : String → String
unfolding lstrip rstrip is_space
strip s = rstrip (lstrip s)

-- not s.strip()
abbrev pub is_blank : String → Bool
is_blank s = strip s == ""

-- s.startswith("/") and s.endswith("/")
unfoldable pub starts_slash : String → Bool
starts_slash [] = false
starts_slash (c ∷ s) = eqb (code c) b'/'

unfoldable pub ends_slash : String → Bool
ends_slash [] = false
ends_slash (c ∷ s) = if s == "" then eqb (code c) b'/' else ends_slash s

-- s[:-1]
unfoldable pub drop_last : String → String
drop_last [] = []
drop_last (c ∷ s) = let rest = drop_last s in if s == "" then "" else c ∷ rest

abbrev pub prepend : Char → List String → List String
prepend c [] = (c ∷ "") ∷ []
prepend c (p ∷ ps) = (c ∷ p) ∷ ps

-- s.split("/")
unfoldable pub split_slash : String → List String
split_slash [] = "" ∷ []
split_slash (c ∷ s) =
    let parts = split_slash s in if eqb (code c) b'/' then "" ∷ parts else prepend c parts

-- s.split(".")
unfoldable pub split_dots : String → List String
split_dots [] = "" ∷ []
split_dots (c ∷ s) =
    let parts = split_dots s in if eqb (code c) b'.' then "" ∷ parts else prepend c parts

-- s.startswith(prefix)
unfoldable pub starts_with : String → String → Bool
starts_with s [] = true
starts_with [] (c ∷ prefix) = false
starts_with (d ∷ s) (c ∷ prefix) = eqb (code d) (code c) && starts_with s prefix

-- text in s
unfoldable pub contains : String → String → Bool
unfolding starts_with
contains [] text = text == ""
contains (c ∷ s) text = starts_with (c ∷ s) text || contains s text

-- s.strip("/")
unfoldable pub lstrip_slash : String → String
lstrip_slash [] = []
lstrip_slash (c ∷ s) = let rest = lstrip_slash s in if eqb (code c) b'/' then rest else c ∷ s

unfoldable pub rstrip_slash : String → String
rstrip_slash [] = []
rstrip_slash (c ∷ s) =
    let rest = rstrip_slash s in if rest == "" && eqb (code c) b'/' then "" else c ∷ rest

unfoldable pub strip_slash : String → String
unfolding lstrip_slash rstrip_slash
strip_slash s = rstrip_slash (lstrip_slash s)

-- what stands before and behind the first dot, as `s.split(".", maxsplit=1)` finds it
unfoldable pub split_dot : String → Option (String × String)
split_dot [] = none
split_dot (c ∷ s) =
    let rest = split_dot s in
    if eqb (code c) b'.'
    then some ("", s)
    else elim rest [ none ↦ none | some parts ↦ some (c ∷ parts.0, parts.1) ]

-- len(s), in code points
unfoldable pub code_points : String → ℕ
code_points [] = 0
code_points (c ∷ s) = suc (code_points s)

-- all(test(c) for c in s)
abbrev pub every : (Char → Bool) → String → Bool
every test [] = true
every test (c ∷ s) = test c && every test s

digit : ℕ → String
digit d =
    if eqb d 0
    then "0"
    else if eqb d 1
    then "1"
    else if eqb d 2
    then "2"
    else if eqb d 3
    then "3"
    else if eqb d 4
    then "4"
    else if eqb d 5
    then "5"
    else if eqb d 6
    then "6"
    else if eqb d 7
    then "7"
    else if eqb d 8
    then "8"
    else "9"

-- Fuel above the number is enough: each round divides it by ten.
decimal_from : ℕ → ℕ → String → String
decimal_from zero n out = out
decimal_from (suc fuel) n out =
    let more = decimal_from fuel (n / 10) (Str.◌++◌ (digit (n % 10)) out) in
    if leb n 9 then Str.◌++◌ (digit n) out else more

unfoldable pub decimal : ℕ → String
unfolding decimal_from digit
decimal n = decimal_from (suc n) n ""

-- str(n)
unfoldable pub show_int : ℤ → String
unfolding decimal
show_int (pos n) = decimal n
show_int (negsuc n) = Str.◌++◌ "-" (decimal (suc n))

strip_tests :
    (strip " a b\t" ≡ "a b")
    × (strip "  " ≡ "")
    × (strip "x" ≡ "x")
    × (show_int (negsuc 41) ≡ "-42")
unfolding strip show_int
strip_tests = (refl, refl, refl, refl)

split_tests : (split_slash "a//b/" ≡ "a" ∷ "" ∷ "b" ∷ "" ∷ []) × (drop_last "ab/" ≡ "ab")
unfolding split_slash drop_last
split_tests = (refl, refl)
