-- ===== src/Go/Float.antt =====
-- Go's `float64`, of which the code takes constants, four operations, the tests `<` and `<=`, and the
-- conversions of an integer and of a duration. They are parameters; a law that a theorem relies on is
-- a field of a record of its own.

use go_gateway.Prelude.{ℕ, ℤ, Bool}

pub record Float (F : Type 0) : Type 0 where
  pub zero_f : F
  pub one_f : F
  pub add_f : F → F → F
  pub sub_f : F → F → F
  pub mul_f : F → F → F
  pub div_f : F → F → F
  pub less_f : F → F → Bool
  pub leq_f : F → F → Bool
  pub hundredths : ℕ → F  -- a constant with two decimal places
  pub of_int : ℤ → F
  pub in_seconds : ℤ → F  -- `Seconds` of a duration in nanoseconds
