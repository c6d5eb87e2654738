-- ===== src/Python/Number.antt =====
-- Python's unbounded integers, and the operations on floats that the program relies on.
use tributo_knova.Prelude.{ℕ, Bool, true, false, not, List, Option, leb, eqb}

-- `negsuc n` is -(n + 1).
pub data ℤ : Type 0 where
  pos : ℕ → ℤ
  negsuc : ℕ → ℤ

abbrev pub int_leb : ℤ → ℤ → Bool
int_leb (pos a) (pos b) = leb a b
int_leb (pos a) (negsuc b) = false
int_leb (negsuc a) (pos b) = true
int_leb (negsuc a) (negsuc b) = leb b a

abbrev pub int_eqb : ℤ → ℤ → Bool
int_eqb (pos a) (pos b) = eqb a b
int_eqb (negsuc a) (negsuc b) = eqb a b
int_eqb _ _ = false

-- the truth value of an integer
abbrev pub int_truthy : ℤ → Bool
int_truthy n = not (int_eqb n (pos 0))

-- IEEE doubles are not modelled: their operations are a parameter.
pub record Floats (F : Type 0) : Type 0 where
  -- float(n), or none where it raises OverflowError
  pub of_int : ℤ → Option F
  -- a literal: the numerator over ten to the given power
  pub literal : ℕ → ℕ → F
  -- math.isfinite
  pub is_finite : F → Bool
  -- float.is_integer
  pub is_integer : F → Bool
  -- x == 0.0
  pub is_nought : F → Bool
  -- x <= y and x < y
  pub at_most : F → F → Bool
  pub below : F → F → Bool
  -- x + y
  pub plus : F → F → F
  -- sum of a list
  pub sum : List F → F
  -- math.isclose(x, y, abs_tol=1e-6, rel_tol=0)
  pub is_close : F → F → Bool
