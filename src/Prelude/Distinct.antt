-- ===== src/Prelude/Distinct.antt =====
-- A list of texts with no repetition, each found in another list, is no longer than that list.
use Prim.Native.Nat.{suc, ◌≤◌}
use Prim.Native.String.{String}
use mathlib.Core.Path.{◌≡◌}
use mathlib.Core.Bool.{true, false}
use mathlib.Core.List.{List, [], ◌∷◌}
use native.Mathlib.Omega.{arith}
use text.Mathlib.Text.{◌==◌}
use text.Mathlib.TextEquality.{eq_iff}
use pg_stress.Prelude.Tests.{if◌then◌else◌}
use pg_stress.Prelude.Lists.{length, elem, distinct, All}

-- The list without the first `x`.
drop_one : String → List String → List String
drop_one x [] = []
drop_one x (y ∷ ys) = if y == x then ys else y ∷ drop_one x ys

length-drop_one :
    (x : String) (ys : List String) → elem x ys ≡ true → suc (length (drop_one x ys)) ≤ length ys
unfolding drop_one
length-drop_one x [] h = cc
length-drop_one x (y ∷ ys) h = ground (arith, length-drop_one x ys)

elem-drop_one :
    (x z : String) (ys : List String)
    → (z == x) ≡ false
    → elem z ys ≡ true
    → elem z (drop_one x ys) ≡ true
unfolding drop_one
elem-drop_one x z [] n h = cc
elem-drop_one x z (y ∷ ys) n h =
    ground (arith, elem-drop_one x z ys, eq_iff y x, eq_iff y z, eq_iff z x)

All-drop_one :
    (x : String) (zs ys : List String)
    → elem x zs ≡ false
    → All (λ z. elem z ys ≡ true) zs
    → All (λ z. elem z (drop_one x ys) ≡ true) zs
All-drop_one x [] ys n h = tt
All-drop_one x (z ∷ zs) ys n h =
    (elem-drop_one x z ys (ground arith) h.0, All-drop_one x zs ys (ground arith) h.1)

pub length-le_of_distinct :
    (xs ys : List String)
    → distinct xs ≡ true
    → All (λ x. elem x ys ≡ true) xs
    → length xs ≤ length ys
length-le_of_distinct [] ys d h = omega arith
length-le_of_distinct (x ∷ xs) ys d h = omega (
  arith,
  length-drop_one x ys h.0,
  length-le_of_distinct xs (drop_one x ys) (ground arith) (All-drop_one x xs ys (ground arith) h.1),
)
