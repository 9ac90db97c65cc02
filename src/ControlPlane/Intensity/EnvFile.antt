-- ===== src/ControlPlane/Intensity/EnvFile.antt =====
-- The reading and writing of environment files (control-plane/main.py: `set_intensity`). The order of the
-- items is Python's order of pairs of texts.
use pg_stress.Prelude.{
  String, Bool, Option, some, none, List, [], ◌∷◌, ◌++◌, ◌&&◌, ◌||◌, not, if◌then◌else◌,
}
use pg_stress.Prelude.Chars.{
  Chars, codes, chars_eq, chars_le, strip, before_first, after_first, has_char, starts_with,
  is_empty,
}

-- A `dict` of texts.
abbrev pub Env : Type 0
Env = List (Chars × Chars)

unfoldable pub lookup : Chars → Env → Option Chars
lookup k [] = none
lookup k ((j, v) ∷ env) = if chars_eq j k then some v else lookup k env

unfoldable pub set_key : Chars → Chars → Env → Env
set_key k v [] = (k, v) ∷ []
set_key k v ((j, w) ∷ env) = if chars_eq j k then (j, v) ∷ env else (j, w) ∷ set_key k v env

-- `existing.update(applied)`
unfoldable pub update : Env → Env → Env
unfolding set_key
update existing [] = existing
update existing ((k, v) ∷ applied) = update (set_key k v existing) applied

-- The two sides of a line at its first `=`, stripped.
unfoldable pub key_of : Chars → Chars
key_of line = strip (before_first 61 line)

unfoldable pub value_of : Chars → Chars
value_of line = strip (after_first 61 line)

-- `line and not line.startswith("#") and "=" in line`
unfoldable pub is_setting : Chars → Bool
unfolding is_empty
is_setting line = not (is_empty line) && (not (starts_with line (35 ∷ [])) && has_char 61 line)

-- `for line in project_env.read_text().splitlines():`
unfoldable pub read_existing : Env → List Chars → Env
unfolding is_setting key_of value_of
read_existing existing [] = existing
read_existing existing (raw ∷ lines) =
    let line = strip raw in
    read_existing
      (if is_setting line then set_key (key_of line) (value_of line) existing else existing) lines

-- `os.environ[key] = val` takes no empty name, and no zero character.
unfoldable pub environ_takes : Chars → Chars → Bool
unfolding is_empty
environ_takes k v = not (is_empty k) && (not (has_char 0 k) && not (has_char 0 v))

-- What a preset has set so far, the environment, and whether an assignment raised.
pub record Preset : Type 0 where
  pub applied : Env
  pub environ : Env
  pub raised : Bool

-- `applied[k] = v` and `os.environ[k] = v`
unfoldable pub apply_setting : Chars → Chars → Preset → Preset
unfolding set_key environ_takes
apply_setting k v p = record {
  applied = set_key k v p.applied;
  environ = if environ_takes k v then set_key k v p.environ else p.environ;
  raised = not (environ_takes k v);
}

-- `for line in env_file.read_text().splitlines():`
unfoldable pub read_preset : Preset → List Chars → Preset
unfolding is_empty key_of value_of apply_setting
read_preset p [] = p
read_preset p (raw ∷ lines) =
    let line = strip raw in
    let next = apply_setting (key_of line) (value_of line) p in
    let skipped = read_preset p lines in
    let taken = if next.raised then next else read_preset next lines in
    if is_empty line || starts_with line (35 ∷ [])
    then skipped
    else if has_char 61 line
    then taken
    else skipped

-- `sorted(existing.items())`
unfoldable pub item_le : Chars × Chars → Chars × Chars → Bool
item_le (j, v) (k, w) = if chars_eq j k then chars_le v w else chars_le j k

unfoldable pub insert_item : Chars × Chars → Env → Env
unfolding item_le
insert_item x [] = x ∷ []
insert_item x (y ∷ env) = if item_le x y then x ∷ y ∷ env else y ∷ insert_item x env

unfoldable pub sort_items : Env → Env
unfolding insert_item
sort_items [] = []
sort_items (x ∷ env) = insert_item x (sort_items env)

-- `f"{k}={v}"`
unfoldable pub setting_line : Chars × Chars → Chars
setting_line (k, v) = k ++ 61 ∷ v

unfoldable pub header_line : String → Chars
header_line level = codes "# pg-stress — intensity: " ++ codes level ++ codes " (auto-generated)"

-- One `f.write` for each item.
unfoldable pub item_text : Env → Chars
unfolding setting_line
item_text [] = []
item_text (x ∷ env) = setting_line x ++ 10 ∷ item_text env

unfoldable pub env_text : String → Env → Chars
unfolding header_line item_text sort_items
env_text level existing = header_line level ++ 10 ∷ item_text (sort_items existing)
