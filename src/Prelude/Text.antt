-- ===== src/Prelude/Text.antt =====
-- Tests on texts.
use Prim.Native.String
use Prim.Native.String.{String, find, len}
use mathlib.Core.Bool.{Bool, false, ◌||◌}
use mathlib.Core.List.{List, [], ◌∷◌}
use pg_stress.Prelude.Tests.{leb}

-- `needle in s`
abbrev pub contains : String → String → Bool
contains needle s = leb (find s needle) (len s)

-- `any(p in s for p in needles)`
abbrev pub contains_any : List String → String → Bool
contains_any [] s = false
contains_any (p ∷ ps) s = contains p s || contains_any ps s

abbrev pub concat : String → String → String
concat s t = String.◌++◌ s t

-- `sep.join(parts)`
unfoldable pub join : String → List String → String
join sep [] = ""
join sep (s ∷ []) = s
join sep (s ∷ t ∷ rest) = concat s (concat sep (join sep (t ∷ rest)))
