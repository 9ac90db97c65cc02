-- ===== src/Floats.antt =====
-- Python's `float`, which the interpreter implements: a type and the operations that the modelled
-- code applies to it. The development assumes no law of rounding; where a theorem rests on an order
-- of floats, the law is a hypothesis of that theorem.
use pg_stress.Prelude.{ℕ, Bool}
use pg_stress.Prelude.Int.{ℤ}

pub record Floats : Type 1 where
  pub Float : Type 0
  pub of_int : ℤ → Float
  pub add : Float → Float → Float
  pub sub : Float → Float → Float
  pub mul : Float → Float → Float
  -- `a / b`; the program tests the divisor before each division
  pub div : Float → Float → Float
  pub abs : Float → Float
  -- `a <= b`, `a < b`
  pub le : Float → Float → Bool
  pub lt : Float → Float → Bool
  -- `round(x, digits)`
  pub round : Float → ℕ → Float
  -- `int(x)`, towards zero
  pub trunc : Float → ℤ
