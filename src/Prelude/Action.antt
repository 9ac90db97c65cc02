-- ===== src/Prelude/Action.antt =====
-- Python code that changes a state and may raise: what was written before the exception stays.
use pg_stress.Prelude.Result.{Result, Error, ok, raise}

abbrev pub Action {ℓ} : Type 0 → Type ℓ → Type ℓ
Action S A = S → Result A × S

module _ {ℓ} {S : Type 0} {A : Type ℓ} where
  abbrev pub pure : A → Action S A
  pure a s = (ok a, s)

  abbrev pub fail : Error → Action S A
  fail e s = (raise e, s)

  -- `try: m` and `except Exception as e: handler(e)`
  abbrev pub recover_from : (Error → S → S) → Result A × S → S
  recover_from handler (ok a, s) = s
  recover_from handler (raise e, s) = handler e s

module _ {ℓ κ} {S : Type 0} {A : Type ℓ} {B : Type κ} where
  abbrev pub continue : Result A × S → (A → Action S B) → Result B × S
  continue (ok a, s) f = f a s
  continue (raise e, s) f = (raise e, s)

  infixl 5 ◌>>=◌ ◌>>◌
  abbrev pub ◌>>=◌ : Action S A → (A → Action S B) → Action S B
  ◌>>=◌ m f s = continue (m s) f

  abbrev pub ◌>>◌ : Action S A → Action S B → Action S B
  m >> n = m >>= λ _. n
