-- ===== src/Orm/Operations/Picking.antt =====
-- Which operation is picked (load-generator-orm/main.py).
use pg_stress.Prelude.{ℕ, ◌+◌, ◌≤◌, ◌<◌, String, [], ◌∷◌, ◌≡◌, arith}
use pg_stress.Prelude.Dict.{Dict}
use pg_stress.Prelude.Int.{ℤ, pos, negsuc, ◌+ℤ◌}
use pg_stress.Orm.Operations.{thresholds, first_within, last_name, pick_operation}

-- The draws from `low` to `high` are those of the name: it stands in the mix, and the weights before
-- it, none of them negative, add up to `low - 1`, with its own to `high`.
pub data Share : Dict ℤ → ℕ → String → ℕ → ℕ → Type 0 where
  first :
      {mix : Dict ℤ} {before low high weight : ℕ} {name : String}
      → low ≡ before + 1
      → high ≡ before + weight
      → Share ((name, pos weight) ∷ mix) before name low high
  later :
      {mix : Dict ℤ} {before low high weight : ℕ} {name other : String}
      → Share mix (before + weight) name low high
      → Share ((other, pos weight) ∷ mix) before name low high

pos_sum : (a b : ℕ) → (pos a +ℤ pos b) ≡ pos (a + b)
unfolding ◌+ℤ◌
pos_sum a b = ground arith

first_within-Share :
    (mix : Dict ℤ) (before r : ℕ) (fallback name : String) (low high : ℕ)
    → Share mix before name low high
    → low ≤ r
    → r ≤ high
    → (before < low) × (first_within (pos r) fallback (thresholds (pos before) mix) ≡ name)
unfolding first_within thresholds
first_within-Share [] before r fallback name low high s h k = elim s [ ]
first_within-Share ((other, negsuc w) ∷ mix) before r fallback name low high s h k = elim s [ ]
first_within-Share ((other, pos weight) ∷ mix) before r fallback name low high (first l u) h k =
    (omega arith, rw (pos_sum before weight) (ground arith))
first_within-Share ((other, pos weight) ∷ mix) before r fallback name low high (later s) h k =
    let (b, e) = first_within-Share mix (before + weight) r fallback name low high s h k in
    (omega arith, rw (pos_sum before weight) (ground arith))

-- A draw in the share of a name picks that name, where the shares of the names follow one another, each
-- as wide as its weight.
pub pick_operation-Share :
    (mix : Dict ℤ) (r : ℕ) (name : String) (low high : ℕ)
    → Share mix 0 name low high
    → low ≤ r
    → r ≤ high
    → pick_operation mix (pos r) ≡ name
unfolding pick_operation
pick_operation-Share mix r name low high s h k =
    (first_within-Share mix 0 r (last_name "" (thresholds (pos 0) mix)) name low high s h k).1
