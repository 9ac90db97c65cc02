-- ===== src/Prelude/Result.antt =====
-- Python code that may raise: the value, or the exception.
use mathlib.Core.Path.{◌≡◌, refl}
use mathlib.Core.Option.{Option, none, some}

-- `out_of_fuel` is no exception of the program: it says that the bound on the rounds of a modelled
-- `while` loop was too small.
pub data Error : Type 0 where
  key_error networkx_error value_error index_error type_error attribute_error zero_division_error
        database_error os_error out_of_fuel :
      Error

pub data Result {ℓ} (A : Type ℓ) : Type ℓ where
  raise : Error → Result A
  ok : A → Result A

-- The value, or the exception `e` where there is none.
abbrev pub or_raise {ℓ} : {A : Type ℓ} → Option A → Error → Result A
or_raise (some a) e = ok a
or_raise none e = raise e

module _ {ℓ κ} {A : Type ℓ} {B : Type κ} where
  infixl 5 ◌>>=◌
  abbrev pub ◌>>=◌ : Result A → (A → Result B) → Result B
  raise e >>= next = raise e
  ok x >>= next = next x

  -- A chain that returned went through its first part.
  pub bind-eq-ok :
      (first : Result A) (next : A → Result B) {y : B}
      → (first >>= next) ≡ ok y
      → (x : A) × (first ≡ ok x) × (next x ≡ ok y)
  bind-eq-ok (raise e) next h = absurd (cc)
  bind-eq-ok (ok x) next h = (x, refl, h)

pub or_raise-eq-ok {ℓ} :
    {A : Type ℓ} (o : Option A) (e : Error) {a : A} → or_raise o e ≡ ok a → o ≡ some a
or_raise-eq-ok none e h = absurd (cc)
or_raise-eq-ok (some a) e h = cc
