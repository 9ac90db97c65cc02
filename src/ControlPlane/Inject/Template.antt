-- ===== src/ControlPlane/Inject/Template.antt =====
-- The INSERT that `_do_inject` builds from the catalog (control-plane/main.py). The place of the batch
-- size is the text `{batch}`, as in the source.
use pg_stress.Prelude.{String, Option, some, none, List, [], ◌∷◌, elem, if◌then◌else◌, ◌==◌}
use pg_stress.Prelude.Text.{join}

pub record UniqueRow : Type 0 where
  pub column_name : String
  pub data_type : String

pub record ColumnRow : Type 0 where
  pub column_name : String
  pub data_type : String

-- `unique_map.get(col)`: the last row of a column counts
unfoldable pub unique_type : String → List UniqueRow → Option String → Option String
unique_type col [] found = found
unique_type col (r ∷ rows) found =
    unique_type col rows (if r.column_name == col then some r.data_type else found)

-- A text column under a unique index gets a random suffix.
unfoldable pub select_expr : String → Option String → String
select_expr col none = col
select_expr col (some dtype) =
    if elem dtype ("text" ∷ "varchar" ∷ "bpchar" ∷ [])
    then join "" (col ∷ " || '_' || substr(md5(random()::text), 1, 8) AS " ∷ col ∷ [])
    else col

-- The columns that the database does not number by itself.
unfoldable pub non_serial : List String → List ColumnRow → List String
non_serial serial [] = []
non_serial serial (r ∷ rows) =
    let rest = non_serial serial rows in
    if elem r.column_name serial then rest else r.column_name ∷ rest

unfoldable pub select_exprs : List UniqueRow → List String → List String
unfolding select_expr unique_type
select_exprs unique [] = []
select_exprs unique (col ∷ cols) =
    select_expr col (unique_type col unique none) ∷ select_exprs unique cols

-- The white space between the clauses is one space.
unfoldable pub template_for : String → List UniqueRow → List String → String
unfolding select_exprs join
template_for table unique [] = join "" (
    "INSERT INTO " ∷ table ∷ " SELECT * FROM " ∷ table
    ∷ " ORDER BY random() LIMIT {batch} ON CONFLICT DO NOTHING" ∷ [])
template_for table unique (col ∷ cols) = join "" (
    "INSERT INTO "
    ∷ table
    ∷ " ("
    ∷ join ", " (col ∷ cols)
    ∷ ") SELECT "
    ∷ join ", " (select_exprs unique (col ∷ cols))
    ∷ " FROM "
    ∷ table
    ∷ " ORDER BY random() LIMIT {batch} ON CONFLICT DO NOTHING"
    ∷ [])

unfoldable pub template_of : String → List String → List UniqueRow → List ColumnRow → String
unfolding template_for non_serial
template_of table serial unique columns = template_for table unique (non_serial serial columns)
