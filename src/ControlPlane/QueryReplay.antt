-- ===== src/ControlPlane/QueryReplay.antt =====
-- The query replay (control-plane/query_replay.py): the store of imported queries, and the engine. The
-- tables of SQLite are lists in the order of insertion. The functions of Python on texts (`strip`,
-- `upper`, `startswith`, `re.sub`, `split`, `splitlines`) are those of the record `Texts`.
pub mod Engine
pub mod Importing
pub mod Growth
pub mod Imports
use pg_stress.Prelude.{
  ℕ, suc, ◌+◌, ◌*◌, String, Bool, true, false, Option, some, none, List, [], ◌∷◌, ◌++◌, map,
  keep_if, max, leb, if◌then◌else◌, ◌==◌, ◌||◌, not,
}
use pg_stress.Prelude.Action.{Action, pure, ◌>>=◌, ◌>>◌}
use pg_stress.Prelude.Decimal.{decimal}
use pg_stress.Prelude.Int.{ℤ, pos, max_ℤ, ◌+ℤ◌}
use pg_stress.Prelude.Result
use pg_stress.Prelude.Result.{Result, Error, ok, raise, type_error, attribute_error, database_error}
use pg_stress.Prelude.Text.{concat, join}
use pg_stress.Floats.{Floats}

-- Python's functions on texts.
pub record Texts : Type 0 where
  pub strip : String → String
  pub upper : String → String
  pub startswith : String → String → Bool
  -- `re.sub(r'\$\d+', 'NULL', q)`
  pub null_parameters : String → String
  -- `s.split(";")`, `s.splitlines()`
  pub statements : String → List String
  pub lines : String → List String

pub record QuerySet : Type 0 where
  pub id : String
  pub name : String
  pub source : String
  pub imported_at : String
  pub query_count : ℕ

-- A field of a JSON object: no key, a value of the type that the column has, or a value with which Python
-- or SQLite raises, such as a null query. A null that SQLite stores is not modelled.
pub data Field {ℓ} (A : Type ℓ) : Type ℓ where
  absent : Field A
  given : A → Field A
  refused : Field A

module _ (fl : Floats) where
  pub record Query : Type 0 where
    pub id : ℕ
    pub query_set_id : String
    pub query : String
    pub name : String
    pub source_calls : ℤ
    pub source_mean_ms : fl.Float
    pub source_rows : ℤ
    pub weight : ℤ

  -- One statement of an export.
  pub record StatementRow : Type 0 where
    pub query : Field String
    pub name : Field String
    pub calls : Field ℤ
    pub mean_exec_time : Field fl.Float
    pub mean_time : Field fl.Float
    pub rows : Field ℤ

  -- `next_id` is the AUTOINCREMENT of `queries`.
  pub record QueryStore : Type 0 where
    pub query_sets : List QuerySet
    pub queries : List Query
    pub next_id : ℕ

-- A query of a list that the client sends.
pub record ManualRow : Type 0 where
  pub query : Field String
  pub name : Field String
  pub weight : Field ℤ

-- A file of a directory, in the order of the names: its stem, and its content or the exception of
-- reading it.
pub record SqlFile : Type 0 where
  pub stem : String
  pub content : Result String

-- UPDATE query_sets SET query_count = ? WHERE id = ?
unfoldable pub set_count : String → ℕ → List QuerySet → List QuerySet
set_count set_id count [] = []
set_count set_id count (s ∷ sets) =
    (if s.id == set_id then record s { query_count = count } else s) ∷ set_count set_id count sets

module _ (fl : Floats) (py : Texts) where
  unfoldable pub has_set : String → List QuerySet → Bool
  has_set set_id [] = false
  has_set set_id (s ∷ sets) = s.id == set_id || has_set set_id sets

  -- INSERT INTO query_sets … with no queries yet; the id is the primary key
  unfoldable pub open_set : String → String → String → String → Action (QueryStore fl) (Unit {0})
  unfolding has_set
  open_set set_id name source now st =
      let opened : QueryStore fl = record st {
        query_sets =
            st.query_sets
            ++ record {
              id = set_id;
              name = name;
              source = source;
              imported_at = now;
              query_count = 0;
            }
              ∷ [];
      } in
      if has_set set_id st.query_sets then (raise database_error, st) else (ok tt, opened)

  -- INSERT INTO queries
  unfoldable pub insert_query :
      String → String → String → ℤ → fl.Float → ℤ → ℤ → QueryStore fl → QueryStore fl
  insert_query set_id query name source_calls source_mean_ms source_rows weight st = record st {
    queries =
        st.queries
        ++ record {
          id = st.next_id;
          query_set_id = set_id;
          query = query;
          name = name;
          source_calls = source_calls;
          source_mean_ms = source_mean_ms;
          source_rows = source_rows;
          weight = weight;
        }
          ∷ [];
    next_id = suc st.next_id;
  }

  -- `count += 1` after the INSERT
  unfoldable pub insert_counted :
      String → String → String → ℤ → fl.Float → ℤ → ℤ → ℕ → Action (QueryStore fl) ℕ
  unfolding insert_query
  insert_counted set_id query name source_calls source_mean_ms source_rows weight count st = (
    ok (count + 1),
    insert_query set_id query name source_calls source_mean_ms source_rows weight st,
  )

  -- UPDATE query_sets, and the count of the reply
  unfoldable pub close_set : String → ℕ → Action (QueryStore fl) ℕ
  unfolding set_count
  close_set set_id count st =
      (ok count, record st { query_sets = set_count set_id count st.query_sets })

module _ {fl : Floats} where
  -- SELECT … WHERE query_set_id = ?
  abbrev pub of_set : String → List (Query fl) → List (Query fl)
  of_set set_id qs = keep_if (λ q. q.query_set_id == set_id) qs

  unfoldable pub delete_query_set : String → QueryStore fl → QueryStore fl
  delete_query_set set_id st = record st {
    queries = keep_if (λ q. not (q.query_set_id == set_id)) st.queries;
    query_sets = keep_if (λ s. not (s.id == set_id)) st.query_sets;
  }
