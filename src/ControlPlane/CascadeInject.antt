-- ===== src/ControlPlane/CascadeInject.antt =====
-- Cascading injects (control-plane/main.py: `cascade_inject`). The jobs of cascades and those of injects,
-- which the program keeps in one dictionary under different ids, are two dictionaries here, and the empty
-- object that an inject of a cascade begins with is no snapshot.
pub mod Totals
mod Tests
use pg_stress.Prelude.{
  ℕ, zero, suc, ◌+◌, ◌*◌, ◌/◌, String, Bool, true, false, Option, some, none, List, [], ◌∷◌, length,
  leb, nat_eq, if◌then◌else◌,
}
use pg_stress.Prelude.Action.{Action, pure, ◌>>=◌, ◌>>◌}
use pg_stress.Prelude.Decimal.{decimal, grouped}
use pg_stress.Prelude.Dict.{Dict}
use pg_stress.Prelude.Int.{ℤ, pos, negsuc, pos_part, ◌+ℤ◌, leb_ℤ}
use pg_stress.Prelude.Result.{Result, Error, ok, raise, zero_division_error}
use pg_stress.Prelude.Text.{join}
use pg_stress.Floats.{Floats}
use pg_stress.SchemaGraph.Network.{DiGraph}
use pg_stress.SchemaGraph.Catalog.{EdgeData}
use pg_stress.SchemaGraph.Cascade.{Step, root_step, cascade_plan}
use pg_stress.ControlPlane.Jobs.{Job, new_job, update_job, complete_job}
use pg_stress.ControlPlane.Inject.{Backend, InjectRequest, World, do_inject}
use pg_stress.ControlPlane.TestRuns.{Json, Outside, snapshot_db}

pub record CascadeRequest : Type 0 where
  pub table : String
  pub rows : ℤ
  pub cascade : Bool

-- The two kinds of snapshots of a cascade job: the plan before, the database after.
pub data CascadeState (fl : Floats) : Type 0 where
  planned : List (Step fl) → ℕ → ℤ → CascadeState fl
  snapshot : Json → CascadeState fl

pub record CascadeResult : Type 0 where
  pub tables_injected : ℕ
  pub total_rows : ℤ
  pub after : Json

unfoldable pub planned_rows : {fl : Floats} → List (Step fl) → ℤ
planned_rows [] = pos 0
planned_rows (s ∷ plan) = s.count +ℤ planned_rows plan

-- `sorted(plan, key=lambda p: p["depth"])`, which keeps the order of entries of one depth
unfoldable pub insert_step : {fl : Floats} → Step fl → List (Step fl) → List (Step fl)
insert_step s [] = s ∷ []
insert_step s (t ∷ plan) = if leb s.depth t.depth then s ∷ t ∷ plan else t ∷ insert_step s plan

unfoldable pub sort_steps : {fl : Floats} → List (Step fl) → List (Step fl)
unfolding insert_step
sort_steps [] = []
sort_steps (s ∷ plan) = insert_step s (sort_steps plan)

unfoldable pub is_zero : ℤ → Bool
is_zero (pos n) = nat_eq n 0
is_zero (negsuc n) = false

-- `check and check[0]["rows"] == 0`
unfoldable pub is_empty_table : Option ℤ → Bool
unfolding is_zero
is_empty_table none = false
is_empty_table (some n) = is_zero n

-- The plan of a request, from the graph of the schema.
unfoldable pub plan_of :
    (fl : Floats) {N : Type 0} (nx : DiGraph N (EdgeData fl))
    → nx.Graph
    → CascadeRequest
    → Result (List (Step fl))
plan_of fl nx g req =
    if req.cascade
    then cascade_plan fl nx g req.table req.rows
    else ok (root_step fl (fl.of_int (pos 1)) req.table req.rows ∷ [])

module _ (fl : Floats) {Db : Type 0} (pg : Backend Db) where
  pub record CascadeWorld : Type 0 where
    pub world : World pg
    pub cascades : Dict (Job (CascadeState fl) CascadeResult)

module _ {fl : Floats} {Db : Type 0} (pg : Backend Db) where
  abbrev in_world :
      {A : Type 0} → Result A × Db → CascadeWorld fl pg → Result A × CascadeWorld fl pg
  in_world (r, db) w = (r, record w { world = record w.world { db = db } })

  abbrev pub ask : {A : Type 0} → Action Db A → Action (CascadeWorld fl pg) A
  ask m w = in_world (m w.world.db) w

  unfoldable pub note : String → Option ℤ → String → Action (CascadeWorld fl pg) (Unit {0})
  note job_id progress msg w = (
    ok tt,
    record w { cascades = update_job job_id progress (some msg) (pg.clock w.world.db) w.cascades },
  )

  -- `sub_job = new_job(...)` and `_do_inject(sub_job, inject_req)`
  unfoldable pub sub_inject : String → Step fl → CascadeWorld fl pg → CascadeWorld fl pg
  sub_inject sub_job s w = record w {
    world =
        do_inject pg sub_job (record { table = s.table; rows = pos_part s.count; template = none })
          (record w.world {
            jobs = new_job sub_job "inject" none (pg.clock w.world.db) w.world.jobs;
          });
  }

  unfoldable pub step_msg : ℕ → ℕ → Step fl → String
  step_msg i tables s = join "" (
      "Injecting "
      ∷ grouped (pos_part s.count)
      ∷ " rows into "
      ∷ s.table
      ∷ " ("
      ∷ decimal (i + 1)
      ∷ "/"
      ∷ decimal tables
      ∷ " tables)"
      ∷ [])

  -- The progress divides by the total of the plan.
  abbrev pub unless_zero :
      {A : Type 0} → Bool → Action (CascadeWorld fl pg) A → Action (CascadeWorld fl pg) A
  unless_zero true m w = (raise zero_division_error, w)
  unless_zero false m w = m w

  -- A table that has rows, or none, as far as the catalog says; the total after it.
  unfoldable pub inject_table :
      String → String → ℕ → ℕ → ℤ → ℤ → Step fl → Bool → Action (CascadeWorld fl pg) ℤ
  unfolding note sub_inject step_msg is_zero
  inject_table job_id sub_job i tables total done s true w =
      (note job_id none (join "" ("Skipping " ∷ s.table ∷ " (empty table)" ∷ [])) >> pure done) w
  inject_table job_id sub_job i tables total done s false w =
      unless_zero (is_zero total)
        (note job_id (some (pg.percent done total)) (step_msg i tables s)
          >> (λ w'. (ok (done +ℤ s.count), sub_inject sub_job s w')))
        w

  -- One turn of the loop.
  unfoldable pub run_step :
      String → String → ℕ → ℕ → ℤ → ℤ → Step fl → Action (CascadeWorld fl pg) ℤ
  unfolding inject_table
  run_step job_id sub_job i tables total done s w =
      let injected =
        (ask (pg.estimate s.table) >>= λ check.
        inject_table job_id sub_job i tables total done s (is_empty_table check))
          w in
      if leb_ℤ s.count (pos 0) then (ok done, w) else injected

  -- `for i, step in enumerate(sorted_plan):`; `ids` are the ids that are drawn.
  unfoldable pub run_steps :
      String → (ℕ → String) → ℕ → ℕ → ℤ → ℤ → List (Step fl) → Action (CascadeWorld fl pg) ℤ
  unfolding run_step
  run_steps job_id ids i tables total done [] = pure done
  run_steps job_id ids i tables total done (s ∷ plan) =
      run_step job_id (ids i) i tables total done s >>= λ done'.
      run_steps job_id ids (suc i) tables total done' plan

module _ {fl : Floats} {Db : Type 0} (pg : Backend Db) (out : Outside Db) where
  unfoldable pub end_cascade : String → ℕ → Result ℤ × CascadeWorld fl pg → CascadeWorld fl pg
  unfolding snapshot_db
  end_cascade job_id tables (raise e, w) = record w {
    cascades =
        complete_job (λ r. some (snapshot r.after)) job_id none (some (pg.text_of e))
          (pg.clock w.world.db) w.cascades;
  }
  end_cascade job_id tables (ok done, w) =
      let (after, db) = snapshot_db out w.world.db in
      record w {
        world = record w.world { db = db };
        cascades =
            complete_job (λ r. some (snapshot r.after)) job_id
              (some (record { tables_injected = tables; total_rows = done; after = after })) none
              (pg.clock db) w.cascades;
      }

  unfoldable pub do_cascade :
      String → (ℕ → String) → List (Step fl) → CascadeWorld fl pg → CascadeWorld fl pg
  unfolding run_steps end_cascade sort_steps planned_rows
  do_cascade job_id ids plan w = end_cascade job_id (length (sort_steps plan)) (
      run_steps pg job_id ids 0 (length (sort_steps plan)) (planned_rows (sort_steps plan)) (pos 0)
        (sort_steps plan) w)

  -- The job that the handler adds for a plan, and its background task.
  unfoldable pub cascade_inject :
      String → (ℕ → String) → List (Step fl) → CascadeWorld fl pg → CascadeWorld fl pg
  unfolding do_cascade planned_rows
  cascade_inject job_id ids plan w = do_cascade job_id ids plan (record w {
    cascades =
        new_job job_id "cascade_inject" (some (planned plan (length plan) (planned_rows plan)))
          (pg.clock w.world.db) w.cascades;
  })
