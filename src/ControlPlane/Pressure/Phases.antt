-- ===== src/ControlPlane/Pressure/Phases.antt =====
-- The phases of a ladder (control-plane/main.py).
use pg_stress.Prelude.{
  ℕ, String, Bool, true, false, Option, some, none, List, [], ◌∷◌, ◌++◌, map, append-nil, length,
  min, ◌==◌, ◌≡◌, refl, sym, ap, ◌∙◌,
}
use pg_stress.Prelude.Action.{Action}
use pg_stress.Prelude.Result.{ok}
use pg_stress.Prelude.Int.{pos}
use pg_stress.Prelude.Dict.{get}
use pg_stress.Prelude.Text.{join}
use pg_stress.Floats.{Floats}
use pg_stress.ControlPlane.Jobs.{Job, completed, new_job, finished, given, complete_job}
use pg_stress.ControlPlane.Jobs.Tracked.{
  IsTracked, get-change, update_job-IsTracked, new_job-IsTracked,
}
use pg_stress.ControlPlane.Pressure.{
  LadderRequest, Phase, PhaseRow, LadderReport, OutputTexts, Bench, World, note, initialize_if,
  end_job, phase_of, run_phase, run_phases, save_report, run_ladder, do_ladder, growth_ladder,
}

-- A call that never raises.
abbrev pub Answers : {S A : Type 0} → Action S A → Type 0
Answers {S} {A} m = (s : S) → (a : A) × (s' : S) × (m s ≡ (ok a, s'))

-- No call of the ladder raises.
pub record IsAnswering {fl : Floats} {Db : Type 0} (pg : Bench fl Db) : Type 0 where
  pub exists_ : Answers pg.pgbench_exists
  pub initialize : Answers pg.initialize
  pub phase_row : Answers pg.phase_row
  pub pgbench :
      (connections threads seconds : ℕ) (select_only : Bool)
      → Answers (pg.pgbench connections threads seconds select_only)
  pub write_report : (name : String) (r : LadderReport fl) → Answers (pg.write_report name r)

phase_of-connections :
    {fl : Floats} (py : OutputTexts fl) (conns : ℕ) (b a : Option (PhaseRow fl)) (out : String)
    → (phase_of py conns b a out).connections ≡ conns
unfolding phase_of
phase_of-connections py conns none a out = refl
phase_of-connections py conns (some b) none out = refl
phase_of-connections py conns (some b) (some a) out = refl

map-append-connections :
    {fl : Floats} (ps : List (Phase fl)) (p : Phase fl) (rest : List ℕ)
    → map (λ x. x.connections) (ps ++ p ∷ []) ++ rest
      ≡ map (λ x. x.connections) ps ++ p.connections ∷ rest
map-append-connections [] p rest = refl
map-append-connections (q ∷ ps) p rest =
    ap (λ x. q.connections ∷ x) (map-append-connections ps p rest)

module _ {fl : Floats} (py : OutputTexts fl) {Db : Type 0} (pg : Bench fl Db)
    (law : IsAnswering pg) where
  run_phase-connections :
      (job_id : String) (req : LadderRequest) (done conns : ℕ) (w : World py pg (LadderReport fl))
      → IsTracked job_id w.jobs
      → (p : Phase fl) × (w' : World py pg (LadderReport fl)) × (run_phase py pg job_id req done
            conns w
          ≡ (ok p, w'))
        × (p.connections ≡ conns)
        × IsTracked job_id w'.jobs
  unfolding run_phase note
  run_phase-connections job_id req done conns w t =
      let (before, d1, e1) = law.phase_row w.db in
      let (out, d2, e2) =
        law.pgbench conns (min conns 16) req.phase_duration (req.mode == "readonly") d1 in
      let (after, d3, e3) = law.phase_row d2 in
      rw (e1, e2, e3)
        (
          _,
          _,
          refl,
          phase_of-connections py conns before after out,
          update_job-IsTracked job_id none _ (pg.clock d1) w.jobs t,
        )

  run_phases-connections :
      (job_id : String) (req : LadderRequest) (steps : List ℕ) (done : List (Phase fl))
      → (w : World py pg (LadderReport fl)) → IsTracked job_id w.jobs
      → (ps : List (Phase fl)) × (w' : World py pg (LadderReport fl)) × (run_phases py pg job_id req
            steps done w
          ≡ (ok ps, w'))
        × (map (λ x. x.connections) ps ≡ map (λ x. x.connections) done ++ steps)
        × IsTracked job_id w'.jobs
  unfolding run_phases
  run_phases-connections job_id req [] done w t =
      (done, w, refl, sym (append-nil (map (λ x. x.connections) done)), t)
  run_phases-connections job_id req (conns ∷ steps) done w t =
      let (p, w1, e, c, t1) = run_phase-connections job_id req (length done) conns w t in
      let (ps, w2, e', c', t2) = run_phases-connections job_id req steps (done ++ p ∷ []) w1 t1 in
      (
        ps,
        w2,
        rw e e',
        c'
            ∙ map-append-connections done p steps
            ∙ ap (λ n. map (λ x. x.connections) done ++ n ∷ steps) c,
        t2,
      )

  initialize_if-IsTracked :
      (job_id : String) (b : Bool) (w : World py pg (LadderReport fl))
      → IsTracked job_id w.jobs
      → (w' : World py pg (LadderReport fl)) × (initialize_if py pg (LadderReport fl) job_id b w
          ≡ (ok tt, w'))
        × IsTracked job_id w'.jobs
  unfolding initialize_if note
  initialize_if-IsTracked job_id true w t = (w, refl, t)
  initialize_if-IsTracked job_id false w t =
      let (u, d, e) = law.initialize w.db in
      rw e (_, refl, update_job-IsTracked job_id none _ (pg.clock w.db) w.jobs t)

  save_report-phases :
      (job_id : String) (req : LadderRequest) (phases : List (Phase fl))
      → (w : World py pg (LadderReport fl)) → IsTracked job_id w.jobs
      → (r : LadderReport fl) × (w' : World py pg (LadderReport fl)) × (save_report py pg req phases
            w
          ≡ (ok r, w'))
        × (r.phases ≡ phases)
        × IsTracked job_id w'.jobs
  unfolding save_report
  save_report-phases job_id req phases w t =
      let (u, d, e) =
        law.write_report (join "" ("ladder-" ∷ pg.date_id w.db ∷ ".json" ∷ []))
          (record {
            id = pg.date_id w.db;
            created_at = pg.clock w.db;
            config = req;
            phases = phases;
          })
          w.db in
      rw e (_, _, refl, refl, t)

  run_ladder-phases :
      (job_id : String) (req : LadderRequest) (w : World py pg (LadderReport fl))
      → IsTracked job_id w.jobs
      → (r : LadderReport fl) × (w' : World py pg (LadderReport fl)) × (run_ladder py pg job_id req
            w
          ≡ (ok r, w'))
        × (map (λ x. x.connections) r.phases ≡ req.steps)
        × IsTracked job_id w'.jobs
  unfolding run_ladder
  run_ladder-phases job_id req w t =
      let (b, d, e0) = law.exists_ w.db in
      let (w1, e1, t1) = initialize_if-IsTracked job_id b (record w { db = d }) t in
      let (ps, w2, e2, c, t2) = run_phases-connections job_id req req.steps [] w1 t1 in
      let (r, w3, e3, k, t3) = save_report-phases job_id req ps w2 t2 in
      (r, w3, rw (e0, e1, e2) e3, ap (map (λ x. x.connections)) k ∙ c, t3)

  -- If no call of a ladder raises, its job ends as completed with progress 100, and its report has one
  -- phase for each step that was asked for, in their order.
  pub growth_ladder-phases :
      (job_id : String) (req : LadderRequest) (w : World py pg (LadderReport fl))
      → (j : Job (Unit {0}) (LadderReport fl)) × (r : LadderReport fl) × (get job_id
            (growth_ladder py pg job_id req w).jobs
          ≡ some j)
        × (j.status ≡ completed)
        × (j.progress ≡ pos 100)
        × (j.result ≡ some r)
        × (map (λ x. x.connections) r.phases ≡ req.steps)
  unfolding growth_ladder do_ladder end_job complete_job new_job finished given
  growth_ladder-phases job_id req w =
      let begun : World py pg (LadderReport fl) = record w {
        jobs = new_job job_id "ladder" none (pg.clock w.db) w.jobs;
      } in
      let (r, w', e, c, t) =
        run_ladder-phases job_id req begun
          (new_job-IsTracked job_id "ladder" none (pg.clock w.db) w.jobs) in
      let (j, k) = t in
      let end_ = finished (λ x. none) (some r) none (pg.clock w'.db) in
      (end_ j, r, rw e (get-change job_id end_ w'.jobs j k), refl, refl, refl, c)
