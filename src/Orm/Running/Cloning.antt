-- ===== src/Orm/Running/Cloning.antt =====
-- The rows that `op_bulk_insert` clones (load-generator-orm/main.py): which columns a clone has.
use pg_stress.Prelude.{
  String, Bool, Option, some, none, List, [], ◌∷◌, ◌++◌, elem, map, not, if◌then◌else◌, ◌==◌, ◌&&◌,
  ◌≡◌, refl, ◌∙◌, ap, arith, eq_iff,
}
use pg_stress.Prelude.Dict.{Dict, get, put, get-put}
use pg_stress.Orm.Introspect.{ColumnInfo, TableProfile}

-- `{c.name for c in tp.columns if c.is_serial}`
unfoldable pub serial_names : List ColumnInfo → List String
serial_names [] = []
serial_names (c ∷ cs) = let rest = serial_names cs in if c.is_serial then c.name ∷ rest else rest

unfoldable pub skip_columns : TableProfile → List String
unfolding serial_names
skip_columns tp = tp.pk_columns ++ serial_names tp.columns

module _ {Value : Type 0} where
  -- `if val is not None: setattr(obj, col.name, val)`
  unfoldable pub set_if : String → Option Value → Dict Value → Dict Value
  unfolding put
  set_if name none obj = obj
  set_if name (some v) obj = put name v obj

  -- The attributes that are copied from a row, given by `field`.
  unfoldable pub copy_columns :
      List String → (String → Option Value) → List ColumnInfo → Dict Value → Dict Value
  unfolding set_if
  copy_columns skip field [] obj = obj
  copy_columns skip field (c ∷ cs) obj =
      copy_columns skip field cs
        (if elem c.name skip then obj else set_if c.name (field c.name) obj)

  -- `for ts_col in ["created_at", "logged_at", "recorded_at"]:`
  unfoldable pub stamp_columns : Value → List String → List String → Dict Value → Dict Value
  unfolding put
  stamp_columns now columns [] obj = obj
  stamp_columns now columns (ts ∷ tss) obj =
      stamp_columns now columns tss (if elem ts columns then put ts now obj else obj)

  unfoldable pub clone_row : TableProfile → Value → (String → Option Value) → Dict Value
  unfolding copy_columns stamp_columns skip_columns
  clone_row tp now field =
      stamp_columns now (map (λ c. c.name) tp.columns)
        ("created_at" ∷ "logged_at" ∷ "recorded_at" ∷ [])
        (copy_columns (skip_columns tp) field tp.columns [])

-- The first value, or else the second.
unfoldable pub or_else {ℓ} : {A : Type ℓ} → Option A → Option A → Option A
or_else none o = o
or_else (some a) o = some a

unfoldable pub is_stamp : String → Bool
is_stamp name = elem name ("created_at" ∷ "logged_at" ∷ "recorded_at" ∷ [])

or_else_twice {ℓ} : {A : Type ℓ} (o p : Option A) → or_else o (or_else o p) ≡ or_else o p
unfolding or_else
or_else_twice none p = refl
or_else_twice (some a) p = refl

or_else-none {ℓ} : {A : Type ℓ} (o : Option A) → or_else o none ≡ o
unfolding or_else
or_else-none none = refl
or_else-none (some a) = refl

get-set_if :
    {Value : Type 0} (name j : String) (o : Option Value) (obj : Dict Value)
    → get j (set_if name o obj) ≡ (if name == j then or_else o (get j obj) else get j obj)
unfolding set_if or_else
get-set_if name j none obj = ground arith
get-set_if name j (some v) obj = get-put name j v obj

module _ {Value : Type 0} (now : Value) (field : String → Option Value) where
  get-copy_columns :
      (skip : List String) (j : String) (cs : List ColumnInfo) (obj : Dict Value)
      → get j (copy_columns skip field cs obj) ≡ (
          if elem j (map (λ c. c.name) cs) && not (elem j skip)
          then or_else (field j) (get j obj)
          else get j obj)
  unfolding copy_columns
  get-copy_columns skip j [] obj = refl
  get-copy_columns skip j (c ∷ cs) obj = ground (
    arith,
    get-copy_columns skip j cs obj,
    get-copy_columns skip j cs (set_if c.name (field c.name) obj),
    get-set_if c.name j (field c.name) obj,
    or_else_twice (field j) (get j obj),
    eq_iff c.name j,
  )

  get-stamp_columns :
      (columns : List String) (j : String) (tss : List String) (obj : Dict Value)
      → get j (stamp_columns now columns tss obj)
        ≡ (if elem j tss && elem j columns then some now else get j obj)
  unfolding stamp_columns
  get-stamp_columns columns j [] obj = refl
  get-stamp_columns columns j (ts ∷ tss) obj = ground (
    arith,
    get-stamp_columns columns j tss obj,
    get-stamp_columns columns j tss (put ts now obj),
    get-put ts j now obj,
    eq_iff ts j,
  )

  -- A clone holds under a timestamp name of the table the time of the cloning, under a column that is
  -- neither in the primary key nor serial what the source row has there, and under any other name
  -- nothing.
  pub get-clone_row :
      (tp : TableProfile) (j : String)
      → get j (clone_row tp now field) ≡ (
          if is_stamp j && elem j (map (λ c. c.name) tp.columns)
          then some now
          else if elem j (map (λ c. c.name) tp.columns) && not (elem j (skip_columns tp))
          then field j
          else none)
  unfolding clone_row is_stamp get
  get-clone_row tp j =
      let columns = map (λ c. c.name) tp.columns in
      let copied = copy_columns (skip_columns tp) field tp.columns [] in
      get-stamp_columns columns j ("created_at" ∷ "logged_at" ∷ "recorded_at" ∷ []) copied
      ∙ ap (λ o. if is_stamp j && elem j columns then some now else o)
          (get-copy_columns (skip_columns tp) j tp.columns []
            ∙ ap (λ o. if elem j columns && not (elem j (skip_columns tp)) then o else none)
                (or_else-none (field j)))
