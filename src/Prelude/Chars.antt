-- ===== src/Prelude/Chars.antt =====
-- Python's `str` as the list of its code points, where the program walks over it.
pub mod Trim
use Prim.Native.Nat.{ℕ, ◌≤◌, ◌<◌}
use Prim.Native.Char.{code}
use Prim.Native.String
use Prim.Native.String.{String}
use mathlib.Core.Path.{◌≡◌, refl, ap, sym, ◌∙◌}
use mathlib.Core.Logic.{◌↔◌, inl, inr}
use mathlib.Core.Bool.{Bool, true, false, ◌&&◌, ◌||◌, not}
use mathlib.Core.List.{List, [], ◌∷◌, ◌++◌, append-nil, append_assoc}
use native.Mathlib.Omega.{arith}
use pg_stress.Prelude.Tests.{leb, nat_eq, if◌then◌else◌, Bool-cases}
use pg_stress.Prelude.Lists.{All}

abbrev pub Chars : Type 0
Chars = List ℕ

-- The code points of a text.
abbrev pub codes : String → Chars
codes String.[] = []
codes (String.◌∷◌ c s) = code c ∷ codes s

-- `s == t`
unfoldable pub chars_eq : Chars → Chars → Bool
chars_eq [] [] = true
chars_eq [] (d ∷ t) = false
chars_eq (c ∷ s) [] = false
chars_eq (c ∷ s) (d ∷ t) = nat_eq c d && chars_eq s t

pub chars_eq_iff : (s t : Chars) → (chars_eq s t ≡ true) ↔ (s ≡ t)
unfolding chars_eq
chars_eq_iff [] [] = ((λ h. refl), (λ h. refl))
chars_eq_iff [] (d ∷ t) = ((λ h. absurd (cc)), (λ h. absurd (cc)))
chars_eq_iff (c ∷ s) [] = ((λ h. absurd (cc)), (λ h. absurd (cc)))
chars_eq_iff (c ∷ s) (d ∷ t) =
    ((λ h. ground (arith, chars_eq_iff s t)), (λ h. ground (arith, chars_eq_iff s t)))

-- `s <= t`, by code points
unfoldable pub chars_le : Chars → Chars → Bool
chars_le [] t = true
chars_le (c ∷ s) [] = false
chars_le (c ∷ s) (d ∷ t) = if nat_eq c d then chars_le s t else leb c d

-- `c.isspace()`
unfoldable pub is_space : ℕ → Bool
is_space c =
    (leb 9 c && leb c 13)
    || ((leb 28 c && leb c 32)
        || (nat_eq c 133
            || (nat_eq c 160
                || (nat_eq c 5760
                    || ((leb 8192 c && leb c 8202)
                        || (nat_eq c 8232
                            || (nat_eq c 8233
                                || (nat_eq c 8239 || (nat_eq c 8287 || nat_eq c 12288)))))))))

-- A character at which `splitlines` ends a line.
unfoldable pub is_break : ℕ → Bool
is_break c =
    (leb 10 c && leb c 13)
    || ((leb 28 c && leb c 30) || (nat_eq c 133 || (nat_eq c 8232 || nat_eq c 8233)))

-- `s.lstrip()`
unfoldable pub lstrip : Chars → Chars
lstrip [] = []
lstrip (c ∷ s) = if is_space c then lstrip s else c ∷ s

-- The character `c` before a text that is stripped at its end.
unfoldable pub before_text : ℕ → Chars → Chars
before_text c [] = if is_space c then [] else c ∷ []
before_text c (d ∷ t) = c ∷ d ∷ t

-- `s.rstrip()`
unfoldable pub rstrip : Chars → Chars
unfolding before_text
rstrip [] = []
rstrip (c ∷ s) = before_text c (rstrip s)

-- `s.strip()`
unfoldable pub strip : Chars → Chars
unfolding lstrip rstrip
strip s = rstrip (lstrip s)

-- What is open at the end of the text is a line, unless it is empty.
unfoldable pub last_line : Chars → List Chars
last_line [] = []
last_line (c ∷ s) = (c ∷ s) ∷ []

unfoldable pub is_empty : Chars → Bool
is_empty [] = true
is_empty (c ∷ s) = false

-- `s.splitlines()`, from the line that is open. A carriage return with a line feed is read as two
-- ends, so that there is an empty line between, which the readers of this program skip.
unfoldable pub lines_from : Chars → Chars → List Chars
unfolding last_line
lines_from open_ [] = last_line open_
lines_from open_ (c ∷ s) =
    let line_ended = open_ ∷ lines_from [] s in
    let line_open = lines_from (open_ ++ c ∷ []) s in if is_break c then line_ended else line_open

unfoldable pub splitlines : Chars → List Chars
unfolding lines_from
splitlines s = lines_from [] s

-- The text before the first `sep` and the text after it: `s.split(sep, 1)` where `sep in s`.
unfoldable pub before_first : ℕ → Chars → Chars
before_first sep [] = []
before_first sep (c ∷ s) = let rest = c ∷ before_first sep s in if nat_eq c sep then [] else rest

unfoldable pub after_first : ℕ → Chars → Chars
after_first sep [] = []
after_first sep (c ∷ s) = let rest = after_first sep s in if nat_eq c sep then s else rest

unfoldable pub any_char : (ℕ → Bool) → Chars → Bool
any_char p [] = false
any_char p (c ∷ s) = p c || any_char p s

-- `sep in s`
abbrev pub has_char : ℕ → Chars → Bool
has_char sep s = any_char (λ c. nat_eq c sep) s

-- `s.startswith(prefix)`
unfoldable pub starts_with : Chars → Chars → Bool
starts_with s [] = true
starts_with [] (p ∷ prefix) = false
starts_with (c ∷ s) (p ∷ prefix) = nat_eq c p && starts_with s prefix
