-- ===== src/ControlPlane/QueryReplay/Imports.antt =====
-- The count that a query set stores is the number of its queries (control-plane/query_replay.py).
use pg_stress.Prelude.{
  ℕ, String, Bool, true, false, List, [], ◌∷◌, ◌++◌, keep_if, if◌then◌else◌, ◌==◌, not, All,
  All-append, All-map, sym, ◌≡◌, refl, ◌∙◌, arith, eq_iff, eq_self, Bool-cases, inl, inr,
}
use pg_stress.Prelude.Action.{Action, continue}
use pg_stress.Prelude.Result.{Result, ok, raise, database_error}
use pg_stress.Floats.{Floats}
use pg_stress.ControlPlane.QueryReplay.{
  Texts, QuerySet, StatementRow, QueryStore, ManualRow, SqlFile, set_count, has_set, open_set,
  close_set, delete_query_set,
}
use pg_stress.ControlPlane.QueryReplay.Importing.{
  total_calls, import_statements, import_pg_stat_statements, import_files, import_sql_files,
  import_rows, import_sql_text,
}
use pg_stress.ControlPlane.QueryReplay.Growth.{
  size_in, Grown, size_in-delete_other, Grown-statements, Grown-files, Grown-rows,
}

-- A call that changes the store.
pub data Call (fl : Floats) : Type 0 where
  statements : String → String → List (StatementRow fl) → Call fl
  files : String → String → String → List SqlFile → Call fl
  manual : String → String → List ManualRow → Call fl
  delete : String → Call fl

module _ (fl : Floats) (py : Texts) where
  -- Every set stores the number of its queries.
  abbrev pub Counted : QueryStore fl → Type 0
  Counted st = All (λ s. s.query_count ≡ size_in s.id st.queries) st.query_sets

  All-set_count :
      (set_id : String) (count : ℕ) (P : QuerySet → Type 0) (sets : List QuerySet)
      → ((s : QuerySet) → (s.id == set_id) ≡ true → P (record s { query_count = count }))
      → All (λ s. (s.id == set_id) ≡ false → P s) sets
      → All P (set_count set_id count sets)
  unfolding set_count
  All-set_count set_id count P [] there h = tt
  All-set_count set_id count P (s ∷ sets) there h = elim (Bool-cases (s.id == set_id)) [
    | inl e ↦ rw e (there s e, All-set_count set_id count P sets there h.1)
    | inr e ↦ rw e (h.0 e, All-set_count set_id count P sets there h.1)
  ]

  -- A set whose id is another one than `set_id` stores the number of its queries.
  abbrev IsOther : String → QueryStore fl → QuerySet → Type 0
  IsOther set_id st s = (s.id == set_id) ≡ false → s.query_count ≡ size_in s.id st.queries

  -- The sets whose id is another one than `set_id` store the numbers of their queries.
  abbrev pub OthersCounted : String → QueryStore fl → Type 0
  OthersCounted set_id st =
      All (λ s. s.query_count ≡ size_in s.id st.queries)
        (keep_if (λ s. not (s.id == set_id)) st.query_sets)

  All-keep_other :
      (set_id : String) (P : QuerySet → Type 0) (sets : List QuerySet)
      → All (λ s. (s.id == set_id) ≡ false → P s) sets
      → All P (keep_if (λ s. not (s.id == set_id)) sets)
  All-keep_other set_id P [] h = tt
  All-keep_other set_id P (s ∷ sets) h = elim (Bool-cases (s.id == set_id)) [
    | inl e ↦ rw e (All-keep_other set_id P sets h.1)
    | inr e ↦ rw e (h.0 e, All-keep_other set_id P sets h.1)
  ]

  module _ (set_id name source now : String) (st : QueryStore fl) (h : Counted st) where
    abbrev opened : QueryStore fl
    opened = record st {
      query_sets =
          st.query_sets
          ++ record {
            id = set_id;
            name = name;
            source = source;
            imported_at = now;
            query_count = 0;
          }
            ∷ [];
    }

    Grown-IsOther :
        (r : Result ℕ × QueryStore fl)
        → Grown set_id 0 opened r
        → All (IsOther set_id r.1) r.1.query_sets
    Grown-IsOther r g = rw g.sets (
        All-append (IsOther set_id r.1) st.query_sets _
          (All-map (λ s. s.query_count ≡ size_in s.id st.queries) (IsOther set_id r.1) st.query_sets
            (λ s e n. omega (arith, e, g.others s.id n)) h)
          ((λ n. absurd (cc (eq_self set_id))), tt))

    close-Counted :
        (r : Result ℕ × QueryStore fl)
        → size_in set_id st.queries ≡ 0
        → Grown set_id 0 opened r
        → (n : ℕ) → (continue r (close_set fl py set_id)).0 ≡ ok n
        → Counted (continue r (close_set fl py set_id)).1
    unfolding close_set
    close-Counted (ok count, st') new g n e =
        All-set_count set_id count (λ s. s.query_count ≡ size_in s.id st'.queries) st'.query_sets
          (λ s e. rw ((eq_iff s.id set_id).0 e) (omega (arith, g.counted count refl, new)))
          (Grown-IsOther (ok count, st') g)
    close-Counted (raise e, st') new g n e' = absurd (cc)

    close-OthersCounted :
        (r : Result ℕ × QueryStore fl)
        → Grown set_id 0 opened r
        → OthersCounted set_id (continue r (close_set fl py set_id)).1
    unfolding close_set
    close-OthersCounted (ok count, st') g =
        All-keep_other set_id _ (set_count set_id count st'.query_sets) (
          All-set_count set_id count (IsOther set_id st') st'.query_sets (λ s e n. absurd (cc))
            (All-map (IsOther set_id st') (λ s. (s.id == set_id) ≡ false → IsOther set_id st' s)
              st'.query_sets (λ s o n. o) (Grown-IsOther (ok count, st') g)))
    close-OthersCounted (raise e, st') g =
        All-keep_other set_id _ st'.query_sets (Grown-IsOther (raise e, st') g)

    module _ (body : Action (QueryStore fl) ℕ) (g : Grown set_id 0 opened (body opened)) where
      -- The import, after the INSERT of its set was refused or not.
      abbrev after_open : Bool → Result ℕ × QueryStore fl
      after_open taken =
          continue
            (continue {0, 0} (if taken then (raise database_error, st) else (ok tt, opened))
              (λ u. body))
            (close_set fl py set_id)

      after_open-Counted :
          (taken : Bool)
          → size_in set_id st.queries ≡ 0
          → (n : ℕ) → (after_open taken).0 ≡ ok n
          → Counted (after_open taken).1
      after_open-Counted true new n e = absurd (cc)
      after_open-Counted false new n e = close-Counted (body opened) new g n e

      after_open-OthersCounted : (taken : Bool) → OthersCounted set_id (after_open taken).1
      after_open-OthersCounted true = All-keep_other set_id _ st.query_sets (
          All-map (λ s. s.query_count ≡ size_in s.id st.queries) (IsOther set_id st) st.query_sets
            (λ s o n. o) h)
      after_open-OthersCounted false = close-OthersCounted (body opened) g

  delete-Counted :
      (set_id : String) (st : QueryStore fl) → Counted st → Counted (delete_query_set set_id st)
  unfolding delete_query_set
  delete-Counted set_id st h = kept st.query_sets h
    where
      kept :
          (sets : List QuerySet)
          → All (λ s. s.query_count ≡ size_in s.id st.queries) sets
          → All
              (λ s.
                s.query_count
                ≡ size_in s.id (keep_if (λ q. not (q.query_set_id == set_id)) st.queries))
              (keep_if (λ s. not (s.id == set_id)) sets)
      kept [] k = tt
      kept (s ∷ sets) k = elim (Bool-cases (s.id == set_id)) [
        | inl e ↦ rw e (kept sets k.1)
        | inr e ↦ rw e (k.0 ∙ sym (size_in-delete_other s.id set_id st.queries e), kept sets k.1)
      ]

  unfoldable pub call : Call fl → Action (QueryStore fl) ℕ
  call (statements set_id name rows) st = import_pg_stat_statements fl py set_id "" name rows st
  call (files set_id name dir fs) st = import_sql_files fl py set_id "" name dir fs st
  call (manual set_id name rows) st = import_sql_text fl py set_id "" name rows st
  call (delete set_id) st = (ok 0, delete_query_set set_id st)

  -- The set that a call is about.
  abbrev pub set_of : Call fl → String
  set_of (statements set_id name rows) = set_id
  set_of (files set_id name dir fs) = set_id
  set_of (manual set_id name rows) = set_id
  set_of (delete set_id) = set_id

  -- The id that an import draws has no queries yet.
  abbrev pub IsFresh : Call fl → QueryStore fl → Type 0
  IsFresh (statements set_id name rows) st = size_in set_id st.queries ≡ 0
  IsFresh (files set_id name dir fs) st = size_in set_id st.queries ≡ 0
  IsFresh (manual set_id name rows) st = size_in set_id st.queries ≡ 0
  IsFresh (delete set_id) st = Unit

  -- If every set stores the number of its queries and an import draws an id that has no queries, then
  -- after an import of any kind that returns, or the deletion of a set, every set stores the number of
  -- its queries.
  pub call-Counted :
      (c : Call fl) (st : QueryStore fl)
      → IsFresh c st
      → Counted st
      → (n : ℕ) → (call c st).0 ≡ ok n
      → Counted (call c st).1
  unfolding call import_pg_stat_statements import_sql_files import_sql_text open_set
  call-Counted (statements set_id name rows) st new h =
      after_open-Counted set_id name "pg_stat_statements" "" st h
        (import_statements fl py set_id (total_calls fl py rows) rows 0)
        (Grown-statements fl py set_id (total_calls fl py rows) rows 0 _)
        (has_set fl py set_id st.query_sets) new
  call-Counted (files set_id name dir fs) st new h =
      after_open-Counted set_id name _ "" st h (import_files fl py set_id fs 0)
        (Grown-files fl py set_id fs 0 _) (has_set fl py set_id st.query_sets) new
  call-Counted (manual set_id name rows) st new h =
      after_open-Counted set_id name "manual" "" st h (import_rows fl py set_id rows 0)
        (Grown-rows fl py set_id rows 0 _) (has_set fl py set_id st.query_sets) new
  call-Counted (delete set_id) st new h = λ n e. delete-Counted set_id st h

  -- If every set stores the number of its queries, then after a call that returns or raises, at
  -- whatever row, every set but the one that the call is about stores the number of its queries.
  pub call-OthersCounted :
      (c : Call fl) (st : QueryStore fl) → Counted st → OthersCounted (set_of c) (call c st).1
  unfolding call import_pg_stat_statements import_sql_files import_sql_text open_set
  call-OthersCounted (statements set_id name rows) st h =
      after_open-OthersCounted set_id name "pg_stat_statements" "" st h
        (import_statements fl py set_id (total_calls fl py rows) rows 0)
        (Grown-statements fl py set_id (total_calls fl py rows) rows 0 _)
        (has_set fl py set_id st.query_sets)
  call-OthersCounted (files set_id name dir fs) st h =
      after_open-OthersCounted set_id name _ "" st h (import_files fl py set_id fs 0)
        (Grown-files fl py set_id fs 0 _) (has_set fl py set_id st.query_sets)
  call-OthersCounted (manual set_id name rows) st h =
      after_open-OthersCounted set_id name "manual" "" st h (import_rows fl py set_id rows 0)
        (Grown-rows fl py set_id rows 0 _) (has_set fl py set_id st.query_sets)
  call-OthersCounted (delete set_id) st h =
      All-keep_other set_id _ (delete_query_set set_id st).query_sets (
        All-map _ (IsOther set_id (delete_query_set set_id st)) _ (λ s o n. o)
          (delete-Counted set_id st h))
