-- ===== src/Prelude/Http.antt =====
-- The answer of a route: a value, an `HTTPException` by its status code, or another exception.
use Prim.Native.Nat.{ℕ}
use mathlib.Core.Path.{◌≡◌}
use mathlib.Core.Bool.{Bool, true, false}
use pg_stress.Prelude.Result.{Error}

pub data Reply {ℓ} (A : Type ℓ) : Type ℓ where
  http_error : ℕ → Reply A
  crash : Error → Reply A
  replied : A → Reply A

unfoldable pub is_replied {ℓ} : {A : Type ℓ} → Reply A → Bool
is_replied (replied a) = true
is_replied (http_error n) = false
is_replied (crash e) = false

pub replied_inj {ℓ} : {A : Type ℓ} (x y : A) → replied x ≡ replied y → x ≡ y
replied_inj x y h = cc
