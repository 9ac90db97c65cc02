-- ===== src/Prelude/Decimal.antt =====
-- `str(n)` and `f"{n:,}"`.
use Prim.Native.Nat.{ℕ, zero, suc, ◌/◌, ◌%◌}
use Prim.Native.String.{String}
use pg_stress.Prelude.Tests.{ltb, nat_eq, if◌then◌else◌}
use pg_stress.Prelude.Text.{concat}

digit : ℕ → String
digit d =
    if nat_eq d 0
    then "0"
    else if nat_eq d 1
    then "1"
    else if nat_eq d 2
    then "2"
    else if nat_eq d 3
    then "3"
    else if nat_eq d 4
    then "4"
    else if nat_eq d 5
    then "5"
    else if nat_eq d 6
    then "6"
    else if nat_eq d 7
    then "7"
    else if nat_eq d 8
    then "8"
    else "9"

-- The fuel is the number itself: there are fewer digits.
digits : ℕ → ℕ → String
unfolding digit
digits zero n = digit n
digits (suc fuel) n =
    let more = digits fuel (n / 10) in if ltb n 10 then digit n else concat more (digit (n % 10))

unfoldable pub decimal : ℕ → String
unfolding digits
decimal n = digits n n

-- Three digits, with leading zeros.
triple : ℕ → String
unfolding digit
triple n = concat (digit (n / 100)) (concat (digit (n / 10 % 10)) (digit (n % 10)))

groups : ℕ → ℕ → String
unfolding decimal triple
groups zero n = decimal n
groups (suc fuel) n =
    let more = groups fuel (n / 1000) in
    if ltb n 1000 then decimal n else concat more (concat "," (triple (n % 1000)))

unfoldable pub grouped : ℕ → String
unfolding groups
grouped n = groups n n
