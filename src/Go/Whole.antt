-- ===== src/Go/Whole.antt =====
-- Whole numbers in place of `float64`, for tests and for the theorems at concrete inputs.
use go_gateway.Prelude.{ℕ, ◌+◌, ◌-◌, ◌*◌, ◌/◌, ltb, leb, pos_part}
use go_gateway.Go.Float.{Float}

instance abbrev pub whole_numbers : Float ℕ
whole_numbers = record {
  zero_f = 0;
  one_f = 1;
  add_f = λ a b. a + b;
  sub_f = λ a b. a - b;
  mul_f = λ a b. a * b;
  div_f = λ a b. a / b;
  less_f = ltb;
  leq_f = leb;
  hundredths = λ n. n / 100;
  of_int = pos_part;
  in_seconds = λ d. pos_part d / 1000000000;
}
