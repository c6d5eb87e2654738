-- ===== src/Tests/Decimal.antt =====
-- A stand-in for floats: decimals with six places. It shows that the operations that the development
-- takes as a parameter can be given.
use tributo_knova.Prelude.{
  ℕ, ◌+◌, ◌*◌, ◌/◌, ◌%◌, ◌^◌, Bool, true, false, ◌&&◌, List, [], ◌∷◌, Option, some, none, leb, ltb,
  eqb, if◌then◌else◌,
}
use tributo_knova.Python.Number.{ℤ, pos, negsuc, Floats}

-- a non-negative number of millionths, or a value that is not finite
pub data Decimal : Type 0 where
  millionths : ℕ → Decimal
  infinite : Decimal

abbrev pub total : List Decimal → Decimal
total [] = millionths 0
total (infinite ∷ xs) = infinite
total (millionths n ∷ xs) = elim (total xs) [
  | millionths m ↦ millionths (n + m)
  | infinite ↦ infinite
]

abbrev pub plus : Decimal → Decimal → Decimal
plus (millionths a) (millionths b) = millionths (a + b)
plus _ _ = infinite

abbrev pub at_most : Decimal → Decimal → Bool
at_most (millionths a) (millionths b) = leb a b
at_most (millionths a) infinite = true
at_most infinite (millionths b) = false
at_most infinite infinite = true

abbrev pub below : Decimal → Decimal → Bool
below (millionths a) (millionths b) = ltb a b
below (millionths a) infinite = true
below infinite b = false

abbrev pub is_finite : Decimal → Bool
is_finite (millionths n) = true
is_finite infinite = false

abbrev pub is_whole : Decimal → Bool
is_whole (millionths n) = eqb (n % 1_000_000) 0
is_whole infinite = false

abbrev pub is_nought : Decimal → Bool
is_nought (millionths n) = eqb n 0
is_nought infinite = false

abbrev pub close : Decimal → Decimal → Bool
close (millionths a) (millionths b) = leb a (b + 1) && leb b (a + 1)
close _ _ = false

-- Negative integers and those of more than 308 digits have no counterpart here.
abbrev pub of_int : ℤ → Option Decimal
of_int (pos n) = if ltb n (10 ^ 308) then some (millionths (n * 1_000_000)) else none
of_int (negsuc n) = none

instance abbrev pub decimals : Floats Decimal
decimals = record {
  of_int = of_int;
  literal = λ n scale. millionths (n * 1_000_000 / 10 ^ scale);
  is_finite = is_finite;
  is_integer = is_whole;
  is_nought = is_nought;
  at_most = at_most;
  below = below;
  plus = plus;
  sum = total;
  is_close = close;
}
