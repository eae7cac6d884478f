-- ===== src/Router/Floats.antt =====
-- What the router uses of float64. A type of floats with these operations is a parameter; NaN and the
-- infinities are values of it.
use model_gateway.Common.{ℕ, Bool}
use model_gateway.Common.Int.{ℤ}

pub record Floats (F : Type 0) : Type 0 where
  pub decimal : ℕ → ℕ → F  -- a literal, its digits over a power of ten
  pub of_int : ℤ → F
  pub plus : F → F → F
  pub minus : F → F → F
  pub times : F → F → F
  pub over : F → F → F
  pub exp2 : F → F
  pub least : F → F → F  -- math.Min
  pub most : F → F → F  -- math.Max
  pub greater : F → F → Bool
  pub at_most : F → F → Bool  -- false where either is NaN, as `greater` is
