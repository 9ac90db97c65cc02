-- ===== src/ControlPlane/CascadeInject/Totals.antt =====
-- What a cascade counts (control-plane/main.py), and the order of its tables.
use pg_stress.Prelude.{
  ℕ, suc, ◌+◌, ◌≤◌, length, leb, elem, String, true, false, some, none, List, [], ◌∷◌, All, ◌≡◌,
  refl, ap, ◌∙◌, arith, Bool-cases, inl, inr,
}
use pg_stress.Prelude.Dict.{get}
use pg_stress.Prelude.Int.{ℤ, pos, negsuc, pos_part, ◌+ℤ◌, leb_ℤ, +ℤ_parts, eq_of_parts}
use pg_stress.Prelude.Result.{ok}
use pg_stress.Floats.{Floats}
use pg_stress.SchemaGraph.Network.{DiGraph, Traversal}
use pg_stress.SchemaGraph.Catalog.{EdgeData}
use pg_stress.SchemaGraph.Cascade.{Step, root_step}
use pg_stress.SchemaGraph.Cascade.Plan.{cascade_plan_total}
use pg_stress.SchemaGraph.Cascade.Plans.{Sorted}
use pg_stress.ControlPlane.Jobs.{Job, completed, new_job, complete_job, finished, given}
use pg_stress.ControlPlane.Jobs.Tracked.{
  IsTracked, get-change, update_job-IsTracked, new_job-IsTracked,
}
use pg_stress.ControlPlane.Inject.{Backend}
use pg_stress.ControlPlane.TestRuns.{Outside, snapshot_db}
use pg_stress.ControlPlane.CascadeInject.{
  CascadeState, planned, snapshot, CascadeResult, CascadeWorld, planned_rows, insert_step,
  sort_steps, is_zero, is_empty_table, note, step_msg, sub_inject, inject_table, run_step,
  run_steps, end_cascade, do_cascade, cascade_inject, CascadeRequest, plan_of,
}

-- The rows that a plan asks for, where it asks for any.
abbrev pub wanted_rows : {fl : Floats} → List (Step fl) → ℕ
wanted_rows [] = 0
wanted_rows (s ∷ plan) = pos_part s.count + wanted_rows plan

add_swap : (a b c : ℤ) → (a +ℤ (b +ℤ c)) ≡ (b +ℤ (a +ℤ c))
add_swap a b c =
    eq_of_parts (a +ℤ (b +ℤ c)) (b +ℤ (a +ℤ c))
      (omega (arith, +ℤ_parts a (b +ℤ c), +ℤ_parts b c, +ℤ_parts b (a +ℤ c), +ℤ_parts a c))

module _ {fl : Floats} where
  insert_step-first :
      (s : Step fl) (plan : List (Step fl))
      → All (λ t. s.depth ≤ t.depth) plan
      → insert_step s plan ≡ s ∷ plan
  unfolding insert_step
  insert_step-first s [] h = refl
  insert_step-first s (t ∷ plan) h = ground (arith, h.0)

  -- Sorting leaves a plan as it is whose depths do not fall.
  pub sort_steps-Sorted : (plan : List (Step fl)) → Sorted plan → sort_steps plan ≡ plan
  unfolding sort_steps
  sort_steps-Sorted [] h = refl
  sort_steps-Sorted (s ∷ plan) h =
      ap (insert_step s) (sort_steps-Sorted plan h.1) ∙ insert_step-first s plan h.0

  planned_rows-insert_step :
      (s : Step fl) (plan : List (Step fl))
      → planned_rows (insert_step s plan) ≡ (s.count +ℤ planned_rows plan)
  unfolding insert_step planned_rows
  planned_rows-insert_step s [] = refl
  planned_rows-insert_step s (t ∷ plan) = elim (Bool-cases (leb s.depth t.depth)) [
    | inl e ↦ rw e refl
    | inr e ↦ rw (e, planned_rows-insert_step s plan) (add_swap t.count s.count (planned_rows plan))
  ]

  planned_rows-sort_steps :
      (plan : List (Step fl)) → planned_rows (sort_steps plan) ≡ planned_rows plan
  unfolding sort_steps planned_rows
  planned_rows-sort_steps [] = refl
  planned_rows-sort_steps (s ∷ plan) =
      planned_rows-insert_step s (sort_steps plan)
      ∙ ap (λ n. s.count +ℤ n) (planned_rows-sort_steps plan)

  wanted_rows-insert_step :
      (s : Step fl) (plan : List (Step fl))
      → wanted_rows (insert_step s plan) ≡ pos_part s.count + wanted_rows plan
  unfolding insert_step
  wanted_rows-insert_step s [] = refl
  wanted_rows-insert_step s (t ∷ plan) = ground (arith, wanted_rows-insert_step s plan)

  wanted_rows-sort_steps :
      (plan : List (Step fl)) → wanted_rows (sort_steps plan) ≡ wanted_rows plan
  unfolding sort_steps
  wanted_rows-sort_steps [] = refl
  wanted_rows-sort_steps (s ∷ plan) =
      wanted_rows-insert_step s (sort_steps plan)
      ∙ ap (λ n. pos_part s.count + n) (wanted_rows-sort_steps plan)

none_wanted : (c : ℤ) → leb_ℤ c (pos 0) ≡ true → pos_part c ≡ 0
none_wanted (pos n) h = ground (arith, h)
none_wanted (negsuc n) h = refl

some_wanted : (d : ℕ) (c : ℤ) → leb_ℤ c (pos 0) ≡ false → (pos d +ℤ c) ≡ pos (d + pos_part c)
unfolding ◌+ℤ◌
some_wanted d (pos n) h = ground arith
some_wanted d (negsuc n) h = absurd (ground (arith, h))

-- The catalog answers for each table, and does not say that it is empty.
pub record IsFilled {Db : Type 0} (pg : Backend Db) : Type 0 where
  pub estimated :
      (table : String) (db : Db)
      → (n : ℤ) × (db' : Db) × (pg.estimate table db ≡ (ok (some n), db'))
        × (is_empty_table (some n) ≡ false)

module _ {fl : Floats} {Db : Type 0} (pg : Backend Db) (law : IsFilled pg) where
  inject_table-total :
      (job_id sub_job : String) (i tables d : ℕ) (total : ℤ) (s : Step fl)
      → is_zero total ≡ false
      → (w : CascadeWorld fl pg) → leb_ℤ s.count (pos 0) ≡ false
      → IsTracked job_id w.cascades
      → (w' : CascadeWorld fl pg) × (inject_table pg job_id sub_job i tables total (pos d) s false w
          ≡ (ok (pos (d + pos_part s.count)), w'))
        × IsTracked job_id w'.cascades
  unfolding inject_table note sub_inject
  inject_table-total job_id sub_job i tables d total s z w c t =
      let noted = (note pg job_id (some (pg.percent (pos d) total)) (step_msg pg i tables s) w).1 in
      (
        sub_inject pg sub_job s noted,
        rw z (ap (λ n. (ok n, sub_inject pg sub_job s noted)) (some_wanted d s.count c)),
        update_job-IsTracked job_id (some (pg.percent (pos d) total))
            (some (step_msg pg i tables s)) (pg.clock w.world.db) w.cascades t,
      )

  run_step-total :
      (job_id sub_job : String) (i tables d : ℕ) (total : ℤ) (s : Step fl)
      → is_zero total ≡ false
      → (w : CascadeWorld fl pg) → IsTracked job_id w.cascades
      → (w' : CascadeWorld fl pg) × (run_step pg job_id sub_job i tables total (pos d) s w
          ≡ (ok (pos (d + pos_part s.count)), w'))
        × IsTracked job_id w'.cascades
  unfolding run_step
  run_step-total job_id sub_job i tables d total s z w t =
      elim (Bool-cases (leb_ℤ s.count (pos 0))) [
        | inl c ↦ (w, rw (c, none_wanted s.count c) (ap (λ n. (ok (pos n), w)) (omega arith)), t)
        | inr c ↦
            let (n, db, e, filled) = law.estimated s.table w.world.db in
            let (w', k, t') =
              inject_table-total job_id sub_job i tables d total s z
                (record w { world = record w.world { db = db } }) c t in
            (w', rw (c, e, filled) k, t')
      ]

  run_steps-total :
      (job_id : String) (ids : ℕ → String) (i tables d : ℕ) (total : ℤ) (plan : List (Step fl))
      → is_zero total ≡ false
      → (w : CascadeWorld fl pg) → IsTracked job_id w.cascades
      → (w' : CascadeWorld fl pg) × (run_steps pg job_id ids i tables total (pos d) plan w
          ≡ (ok (pos (d + wanted_rows plan)), w'))
        × IsTracked job_id w'.cascades
  unfolding run_steps
  run_steps-total job_id ids i tables d total [] z w t =
      (w, ap (λ n. (ok (pos n), w)) (omega arith), t)
  run_steps-total job_id ids i tables d total (s ∷ plan) z w t =
      let (w1, e, t1) = run_step-total job_id (ids i) i tables d total s z w t in
      let (w2, e', t2) =
        run_steps-total job_id ids (suc i) tables (d + pos_part s.count) total plan z w1 t1 in
      (w2, rw e (e' ∙ ap (λ n. (ok (pos n), w2)) (omega arith)), t2)

  -- If the counts of the plan do not add up to zero, and the catalog answers for every table without an
  -- exception and with another number of rows than zero, then a cascade ends as completed with progress 100, and its total is all rows that its plan wanted, whatever the injects have done, failed ones too.
  pub cascade_inject-total :
      (out : Outside Db) (job_id : String) (ids : ℕ → String) (plan : List (Step fl))
      → (w : CascadeWorld fl pg) → is_zero (planned_rows plan) ≡ false
      → (j : Job (CascadeState fl) CascadeResult) × (r : CascadeResult) × (get job_id
            (cascade_inject pg out job_id ids plan w).cascades
          ≡ some j)
        × (j.status ≡ completed)
        × (j.progress ≡ pos 100)
        × (j.result ≡ some r)
        × (r.total_rows ≡ pos (wanted_rows plan))
  unfolding cascade_inject do_cascade end_cascade complete_job finished given
  cascade_inject-total out job_id ids plan w z =
      let sorted = sort_steps plan in
      let begun : CascadeWorld fl pg = record w {
        cascades =
            new_job job_id "cascade_inject" (some (planned plan (length plan) (planned_rows plan)))
              (pg.clock w.world.db) w.cascades;
      } in
      let (w', e, t) =
        run_steps-total job_id ids 0 (length sorted) 0 (planned_rows sorted) sorted
          (rw (planned_rows-sort_steps plan) z) begun
          (new_job-IsTracked job_id "cascade_inject" _ (pg.clock w.world.db) w.cascades) in
      let (j, k) = t in
      let r : CascadeResult = record {
        tables_injected = length sorted;
        total_rows = pos (0 + wanted_rows sorted);
        after = (snapshot_db out w'.world.db).0;
      } in
      let end_ =
        finished (λ x. some (snapshot x.after)) (some r) none
          (pg.clock (snapshot_db out w'.world.db).1) in
      (
        end_ j,
        r,
        rw e (get-change job_id end_ w'.cascades j k),
        refl,
        refl,
        refl,
        ap pos (omega (arith, wanted_rows-sort_steps plan)),
      )

module _ {fl : Floats} {N : Type 0} (nx : DiGraph N (EdgeData fl)) (laws : Traversal nx) where
  -- For a table of the graph a plan is made, whether children are asked for or not, and it is already in
  -- the order of depth into which the cascade sorts it.
  pub plan_of-sorted :
      (g : nx.Graph) (req : CascadeRequest)
      → elem req.table (nx.nodes g) ≡ true
      → (plan : List (Step fl)) × (plan_of fl nx g req ≡ ok plan) × (sort_steps plan ≡ plan)
  unfolding plan_of
  plan_of-sorted g req known = elim (Bool-cases req.cascade) [
    | inl e ↦
        let (plan, made, first) = cascade_plan_total fl nx laws g req.table req.rows known in
        (plan, rw e made, sort_steps-Sorted plan first.ordered)
    | inr e ↦ (
      root_step fl (fl.of_int (pos 1)) req.table req.rows ∷ [],
      rw e refl,
      sort_steps-Sorted (root_step fl (fl.of_int (pos 1)) req.table req.rows ∷ []) (tt, tt),
    )
  ]
