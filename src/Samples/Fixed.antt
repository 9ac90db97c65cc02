-- ===== src/Samples/Fixed.antt =====
-- Hundredths in place of floats: enough to run the modelled code on small inputs.
use pg_stress.Prelude.{ℕ, ◌+◌, ◌-◌, ◌*◌, ◌/◌, leb, ltb}
use pg_stress.Prelude.Int.{pos, pos_part}
use pg_stress.Floats.{Floats}

abbrev pub hundredths : Floats
hundredths = record {
  Float = ℕ;
  of_int = λ n. 100 * pos_part n;
  add = λ a b. a + b;
  sub = λ a b. a - b;
  mul = λ a b. a * b / 100;
  div = λ a b. a * 100 / b;
  abs = λ a. a;
  le = leb;
  lt = ltb;
  round = λ a digits. a;
  trunc = λ a. pos (a / 100);
}
