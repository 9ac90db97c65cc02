-- ===== src/ControlPlane/QueryReplay/Growth.antt =====
-- What the imports add to the queries of a set (control-plane/query_replay.py).
use pg_stress.Prelude.{
  ℕ, ◌+◌, String, Bool, true, false, List, [], ◌∷◌, ◌++◌, length, keep_if, if◌then◌else◌, ◌==◌, not,
  ◌≡◌, refl, ◌∙◌, arith, eq_iff, eq_self,
}
use pg_stress.Prelude.Int.{ℤ, pos}
use pg_stress.Prelude.Action.{Action, continue, ◌>>=◌}
use pg_stress.Prelude.Result.{Result, Error, ok, raise, type_error, attribute_error, database_error}
use pg_stress.Floats.{Floats}
use pg_stress.ControlPlane.QueryReplay.{
  Texts, Query, StatementRow, QueryStore, ManualRow, SqlFile, insert_query, insert_counted, of_set,
}
use pg_stress.ControlPlane.QueryReplay.Importing.{
  or_field, numbered, is_utility, unless_skipped, lift, statement_weight, mean_field,
  insert_statement, import_statement, import_statements, uncommented, import_file_statements,
  import_files, insert_manual, import_row, import_rows,
}

module _ {fl : Floats} where
  -- The number of queries of a set.
  abbrev pub size_in : String → List (Query fl) → ℕ
  size_in k qs = length (of_set k qs)

  size_in-snoc :
      (k : String) (q : Query fl) (qs : List (Query fl))
      → size_in k (qs ++ q ∷ []) ≡ size_in k qs + (if q.query_set_id == k then 1 else 0)
  size_in-snoc k q [] = ground arith
  size_in-snoc k q (r ∷ qs) = ground (arith, size_in-snoc k q qs)

  pub size_in-delete_other :
      (k set_id : String) (qs : List (Query fl))
      → (k == set_id) ≡ false
      → size_in k (keep_if (λ q. not (q.query_set_id == set_id)) qs) ≡ size_in k qs
  size_in-delete_other k set_id [] h = refl
  size_in-delete_other k set_id (q ∷ qs) h = ground (
    arith,
    size_in-delete_other k set_id qs,
    eq_iff q.query_set_id set_id,
    eq_iff q.query_set_id k,
    eq_iff k set_id,
  )

  -- What a part of an import, that began with `count` queries, has done when it returns or raises.
  pub record Grown (set_id : String) (count : ℕ) (st : QueryStore fl) (r : Result ℕ × QueryStore fl)
      : Type 0 where
    pub counted :
        (n : ℕ) → r.0 ≡ ok n → size_in set_id r.1.queries + count ≡ size_in set_id st.queries + n
    pub others : (k : String) → (k == set_id) ≡ false → size_in k r.1.queries ≡ size_in k st.queries
    pub sets : r.1.query_sets ≡ st.query_sets

  same_count :
      (set_id : String) (count n : ℕ) (st : QueryStore fl)
      → ok count ≡ ok n
      → size_in set_id st.queries + count ≡ size_in set_id st.queries + n
  same_count set_id count n st e = let c : count ≡ n = cc in omega (arith, c)

  Grown-pure :
      (set_id : String) (count : ℕ) (st : QueryStore fl) → Grown set_id count st (ok count, st)
  Grown-pure set_id count st = record {
    counted = λ n e. same_count set_id count n st e;
    others = λ k h. refl;
    sets = refl;
  }

  Grown-raise :
      (set_id : String) (count : ℕ) (st : QueryStore fl) (e : Error)
      → Grown set_id count st (raise e, st)
  Grown-raise set_id count st e = record {
    counted = λ n h. absurd (cc);
    others = λ k h. refl;
    sets = refl;
  }

  Grown-bind :
      (set_id : String) (count : ℕ) (st : QueryStore fl) (r : Result ℕ × QueryStore fl)
      → (f : ℕ → Action (QueryStore fl) ℕ) → Grown set_id count st r
      → ((n : ℕ) (st' : QueryStore fl) → Grown set_id n st' (f n st'))
      → Grown set_id count st (continue r f)
  Grown-bind set_id count st (ok n, st') f g h = record {
    counted = λ m e. omega (arith, g.counted n refl, (h n st').counted m e);
    others = λ k e. (h n st').others k e ∙ g.others k e;
    sets = (h n st').sets ∙ g.sets;
  }
  Grown-bind set_id count st (raise e, st') f g h = record {
    counted = λ m e'. absurd (cc);
    others = g.others;
    sets = g.sets;
  }

flipped : (s t : String) → (s == t) ≡ false → (t == s) ≡ false
flipped s t h = ground (arith, eq_iff s t, eq_iff t s)

module _ (fl : Floats) (py : Texts) where
  Grown-lift {ℓ} :
      {A : Type ℓ} (set_id : String) (count : ℕ) (st : QueryStore fl) (r : Result A)
      → (f : A → Action (QueryStore fl) ℕ) → ((a : A) → Grown set_id count st (f a st))
      → Grown set_id count st ((lift fl py r >>= f) st)
  Grown-lift set_id count st (ok a) f h = h a
  Grown-lift set_id count st (raise e) f h = Grown-raise set_id count st e

  Grown-unless_skipped :
      (b : Bool) (set_id : String) (count : ℕ) (st : QueryStore fl) (m : Action (QueryStore fl) ℕ)
      → Grown set_id count st (m st)
      → Grown set_id count st (unless_skipped fl py b count m st)
  Grown-unless_skipped true set_id count st m h = Grown-pure set_id count st
  Grown-unless_skipped false set_id count st m h = h

  Grown-insert :
      (set_id query name : String) (calls : ℤ) (ms : fl.Float) (rows weight : ℤ) (count : ℕ)
      → (st : QueryStore fl)
      → Grown set_id count st (insert_counted fl py set_id query name calls ms rows weight count st)
  unfolding insert_query insert_counted
  Grown-insert set_id query name calls ms rows weight count st = record {
    counted = λ n e.
        let c : count + 1 ≡ n = cc in
        rw (size_in-snoc set_id _ st.queries, eq_self set_id) (omega (arith, c));
    others = λ k n. rw (size_in-snoc k _ st.queries, flipped k set_id n) (omega arith);
    sets = refl;
  }

  Grown-insert_statement :
      (set_id : String) (total : Result ℤ) (row : StatementRow fl) (q : String) (count : ℕ)
      → (st : QueryStore fl)
      → Grown set_id count st (insert_statement fl py set_id total row q count st)
  unfolding insert_statement
  Grown-insert_statement set_id total row q count st =
      Grown-lift set_id count st (or_field (pos 1) row.calls type_error) _ (λ calls.
        Grown-lift set_id count st total _ (λ sum_of_calls.
          Grown-lift set_id count st (or_field (pos 0) row.calls database_error) _ (λ stored.
            Grown-lift set_id count st (or_field (numbered count) row.name database_error) _
              (λ name.
                Grown-lift set_id count st
                  (or_field (fl.of_int (pos 0)) (mean_field fl py row.mean_exec_time row.mean_time)
                    database_error)
                  _
                  (λ mean.
                    Grown-lift set_id count st (or_field (pos 0) row.rows database_error) _ (λ rows.
                      Grown-insert set_id (py.null_parameters q) name stored mean rows
                        (statement_weight fl py sum_of_calls calls) count st))))))

  pub Grown-statements :
      (set_id : String) (total : Result ℤ) (rows : List (StatementRow fl)) (count : ℕ)
      → (st : QueryStore fl)
      → Grown set_id count st (import_statements fl py set_id total rows count st)
  unfolding import_statements import_statement
  Grown-statements set_id total [] count st = Grown-pure set_id count st
  Grown-statements set_id total (row ∷ rows) count st =
      Grown-bind set_id count st (import_statement fl py set_id total row count st) _
        (Grown-lift set_id count st (or_field "" row.query attribute_error) _ (λ text.
          Grown-unless_skipped (is_utility py (py.strip text)) set_id count st _
            (Grown-insert_statement set_id total row (py.strip text) count st)))
        (λ n st'. Grown-statements set_id total rows n st')

  Grown-file_statements :
      (set_id stem : String) (ss : List String) (count : ℕ) (st : QueryStore fl)
      → Grown set_id count st (import_file_statements fl py set_id stem ss count st)
  unfolding import_file_statements
  Grown-file_statements set_id stem [] count st = Grown-pure set_id count st
  Grown-file_statements set_id stem (s ∷ ss) count st =
      Grown-bind set_id count st _ _
        (Grown-unless_skipped (uncommented fl py s == "") set_id count st _ (
          Grown-insert set_id (uncommented fl py s) stem (pos 0) (fl.of_int (pos 0)) (pos 0) (pos 1)
            count st))
        (λ n st'. Grown-file_statements set_id stem ss n st')

  pub Grown-files :
      (set_id : String) (fs : List SqlFile) (count : ℕ) (st : QueryStore fl)
      → Grown set_id count st (import_files fl py set_id fs count st)
  unfolding import_files
  Grown-files set_id [] count st = Grown-pure set_id count st
  Grown-files set_id (f ∷ fs) count st = Grown-lift set_id count st f.content _ (λ content.
      Grown-bind set_id count st
        (import_file_statements fl py set_id f.stem (py.statements (py.strip content)) count st) _
        (Grown-file_statements set_id f.stem (py.statements (py.strip content)) count st)
        (λ n st'. Grown-files set_id fs n st'))

  pub Grown-rows :
      (set_id : String) (qs : List ManualRow) (count : ℕ) (st : QueryStore fl)
      → Grown set_id count st (import_rows fl py set_id qs count st)
  unfolding import_rows import_row insert_manual
  Grown-rows set_id [] count st = Grown-pure set_id count st
  Grown-rows set_id (q ∷ qs) count st =
      Grown-bind set_id count st (import_row fl py set_id q count st) _
        (Grown-lift set_id count st (or_field "" q.query attribute_error) _ (λ text.
          Grown-unless_skipped (py.strip text == "") set_id count st _ (
            Grown-lift set_id count st (or_field (numbered count) q.name database_error) _ (λ name.
              Grown-lift set_id count st (or_field (pos 1) q.weight database_error) _ (λ weight.
                Grown-insert set_id (py.strip text) name (pos 0) (fl.of_int (pos 0)) (pos 0) weight
                  count st)))))
        (λ n st'. Grown-rows set_id qs n st')
