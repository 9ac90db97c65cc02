-- ===== src/ControlPlane/Pressure.antt =====
-- Connection pressure and the growth ladder (control-plane/main.py: `_do_connections`, `_do_ladder`). The
-- program pgbench and PostgreSQL are operations of `Bench`; the text functions of Python that read the
-- output of pgbench are those of `OutputTexts`.
pub mod Phases
mod Tests
use pg_stress.Prelude.{
  ℕ, suc, ◌+◌, ◌*◌, String, Bool, true, false, Option, some, none, List, [], ◌∷◌, ◌++◌, length, min,
  if◌then◌else◌, ◌==◌, ◌&&◌,
}
use pg_stress.Prelude.Action.{Action, pure, ◌>>=◌, ◌>>◌}
use pg_stress.Prelude.Decimal.{decimal}
use pg_stress.Prelude.Dict.{Dict}
use pg_stress.Prelude.Int.{ℤ, pos, ◌-ℤ◌}
use pg_stress.Prelude.Result.{Result, Error, ok, raise}
use pg_stress.Prelude.Text.{contains, join}
use pg_stress.Floats.{Floats}
use pg_stress.ControlPlane.Jobs.{Job, new_job, update_job, complete_job}

pub record ConnectionsRequest : Type 0 where
  pub connections : ℕ
  pub duration : ℕ
  pub mode : String

pub record LadderRequest : Type 0 where
  pub steps : List ℕ
  pub phase_duration : ℕ
  pub mode : String

-- The counters of `_do_connections`, and their differences.
pub record Counters : Type 0 where
  pub xact_commit : ℤ
  pub xact_rollback : ℤ
  pub deadlocks : ℤ
  pub blks_hit : ℤ
  pub blks_read : ℤ
  pub temp_files : ℤ

module _ (fl : Floats) where
  -- The row of a phase, and the phase that is reported.
  pub record PhaseRow : Type 0 where
    pub deadlocks : ℤ
    pub temp_files : ℤ
    pub cache_ratio : fl.Float

  pub record Phase : Type 0 where
    pub connections : ℕ
    pub tps : fl.Float
    pub latency_avg_ms : fl.Float
    pub cache_ratio : fl.Float
    pub deadlocks : ℤ
    pub temp_files : ℤ

  pub record LadderReport : Type 0 where
    pub id : String
    pub created_at : ℕ
    pub config : LadderRequest
    pub phases : List Phase

  pub record ConnectionsResult : Type 0 where
    pub connections : ℕ
    pub duration : ℕ
    pub mode : String
    pub tps : fl.Float
    pub latency_avg_ms : fl.Float
    pub deltas : Option Counters
    pub raw_output : String

  -- `s.splitlines()`, `s.split(sep)`, `s.split()`, `s.strip()`, `float(s)` and `s[-1000:]`
  pub record OutputTexts : Type 0 where
    pub splitlines : String → List String
    pub split_at : String → String → List String
    pub split : String → List String
    pub strip : String → String
    pub float : String → Option fl.Float
    pub last_thousand : String → String

  pub record Bench (Db : Type 0) : Type 0 where
    pub clock : Db → ℕ
    -- `datetime.now().strftime("%Y%m%d-%H%M%S")`
    pub date_id : Db → String
    pub text_of : Error → String
    -- whether pgbench_accounts is there, and `pgbench -i -s 10`
    pub pgbench_exists : Action Db Bool
    pub initialize : Action Db (Unit {0})
    pub counters : Action Db (Option Counters)
    pub phase_row : Action Db (Option PhaseRow)
    -- connections, threads, seconds, `--select-only`; its output
    pub pgbench : ℕ → ℕ → ℕ → Bool → Action Db String
    pub write_report : String → LadderReport → Action Db (Unit {0})

-- `xs[n]`, for n = 0 and 1
unfoldable pub first_of {ℓ} : {A : Type ℓ} → List A → Option A
first_of [] = none
first_of (x ∷ xs) = some x

unfoldable pub second_of {ℓ} : {A : Type ℓ} → List A → Option A
unfolding first_of
second_of [] = none
second_of (x ∷ xs) = first_of xs

unfoldable pub subtract : Counters → Counters → Counters
subtract after before = record {
  xact_commit = after.xact_commit -ℤ before.xact_commit;
  xact_rollback = after.xact_rollback -ℤ before.xact_rollback;
  deadlocks = after.deadlocks -ℤ before.deadlocks;
  blks_hit = after.blks_hit -ℤ before.blks_hit;
  blks_read = after.blks_read -ℤ before.blks_read;
  temp_files = after.temp_files -ℤ before.temp_files;
}

-- `if before and after:`
unfoldable pub deltas_of : Option Counters → Option Counters → Option Counters
unfolding subtract
deltas_of none after = none
deltas_of (some b) none = none
deltas_of (some b) (some a) = some (subtract a b)

module _ {fl : Floats} (py : OutputTexts fl) where
  -- A step of a chain of text functions, where nothing comes of an IndexError or a ValueError.
  abbrev then_ : {A B : Type 0} → Option A → (A → Option B) → Option B
  then_ none f = none
  then_ (some a) f = f a

  abbrev or_keep : fl.Float → Option fl.Float → fl.Float
  or_keep old none = old
  or_keep old (some x) = x

  -- `float(line.split("tps =")[1].split("(")[0].strip())`
  unfoldable pub tps_in : String → Option fl.Float
  unfolding first_of second_of
  tps_in line =
      then_ (second_of (py.split_at "tps =" line))
        (λ rest. then_ (first_of (py.split_at "(" rest)) (λ number. py.float (py.strip number)))

  -- `float(line.split("=")[1].strip().split()[0])`
  unfoldable pub latency_in : String → Option fl.Float
  unfolding first_of second_of
  latency_in line =
      then_ (second_of (py.split_at "=" line))
        (λ rest. then_ (first_of (py.split (py.strip rest))) (λ number. py.float number))

  -- The last rates that the lines name.
  unfoldable pub parse_lines : List String → fl.Float × fl.Float → fl.Float × fl.Float
  unfolding tps_in latency_in
  parse_lines [] found = found
  parse_lines (line ∷ lines) (tps, latency) = parse_lines lines (
    (if contains "tps =" line && contains "excluding" line then or_keep tps (tps_in line) else tps),
    (if contains "latency average" line then or_keep latency (latency_in line) else latency),
  )

  unfoldable pub parse_output : String → fl.Float × fl.Float
  unfolding parse_lines
  parse_output stdout = parse_lines (py.splitlines stdout) (fl.of_int (pos 0), fl.of_int (pos 0))

  -- A phase from its two rows and the output of pgbench.
  unfoldable pub phase_of : ℕ → Option (PhaseRow fl) → Option (PhaseRow fl) → String → Phase fl
  unfolding parse_output
  phase_of conns (some b) (some a) stdout = record {
    connections = conns;
    tps = (parse_output stdout).0;
    latency_avg_ms = (parse_output stdout).1;
    cache_ratio = a.cache_ratio;
    deadlocks = a.deadlocks -ℤ b.deadlocks;
    temp_files = a.temp_files -ℤ b.temp_files;
  }
  phase_of conns before after stdout = record {
    connections = conns;
    tps = (parse_output stdout).0;
    latency_avg_ms = (parse_output stdout).1;
    cache_ratio = fl.of_int (pos 0);
    deadlocks = pos 0;
    temp_files = pos 0;
  }

module _ {fl : Floats} (py : OutputTexts fl) {Db : Type 0} (pg : Bench fl Db) (Out : Type 0) where
  -- The database, and the jobs of one kind; their results have no `after`.
  pub record World : Type 0 where
    pub db : Db
    pub jobs : Dict (Job (Unit {0}) Out)

  abbrev in_db : {A : Type 0} → Result A × Db → Dict (Job (Unit {0}) Out) → Result A × World
  in_db (r, db) jobs = (r, record { db = db; jobs = jobs })

  abbrev pub ask : {A : Type 0} → Action Db A → Action World A
  ask m w = in_db (m w.db) w.jobs

  unfoldable pub note : String → Option ℤ → String → Action World (Unit {0})
  note job_id progress msg w =
      (ok tt, record w { jobs = update_job job_id progress (some msg) (pg.clock w.db) w.jobs })

  unfoldable pub initialize_if : String → Bool → Action World (Unit {0})
  unfolding note
  initialize_if job_id true = pure tt
  initialize_if job_id false =
      note job_id none "Initializing pgbench tables..." >> ask pg.initialize

  -- The end of a job: its result, or the text of the exception.
  unfoldable pub end_job : String → Result Out × World → World
  end_job job_id (ok r, w) = record w {
    jobs = complete_job (λ x. none) job_id (some r) none (pg.clock w.db) w.jobs;
  }
  end_job job_id (raise e, w) = record w {
    jobs = complete_job (λ x. none) job_id none (some (pg.text_of e)) (pg.clock w.db) w.jobs;
  }

module _ {fl : Floats} (py : OutputTexts fl) {Db : Type 0} (pg : Bench fl Db) where
  -- The jobs of connection pressure.
  unfoldable pub run_connections :
      String
      → ConnectionsRequest
      → Action (World py pg (ConnectionsResult fl)) (ConnectionsResult fl)
  unfolding initialize_if note parse_output deltas_of
  run_connections job_id req = ask py pg (ConnectionsResult fl) pg.counters >>= λ before.
      ask py pg (ConnectionsResult fl) pg.pgbench_exists >>= λ exists_.
      initialize_if py pg (ConnectionsResult fl) job_id exists_
      >> note py pg (ConnectionsResult fl) job_id (some (pos 10)) (
          join "" (
            "Running "
            ∷ decimal req.connections
            ∷ " connections for "
            ∷ decimal req.duration
            ∷ "s ("
            ∷ req.mode
            ∷ ")..."
            ∷ []))
      >> ask py pg (ConnectionsResult fl) (
          pg.pgbench req.connections (min req.connections 16) req.duration (req.mode == "readonly"))
      >>= λ stdout. ask py pg (ConnectionsResult fl) pg.counters >>= λ after. pure (record {
        connections = req.connections;
        duration = req.duration;
        mode = req.mode;
        tps = (parse_output py stdout).0;
        latency_avg_ms = (parse_output py stdout).1;
        deltas = deltas_of before after;
        raw_output = py.last_thousand stdout;
      })

  unfoldable pub do_connections :
      String
      → ConnectionsRequest
      → World py pg (ConnectionsResult fl)
      → World py pg (ConnectionsResult fl)
  unfolding run_connections end_job
  do_connections job_id req w =
      end_job py pg (ConnectionsResult fl) job_id (run_connections job_id req w)

  unfoldable pub phase_msg : ℕ → LadderRequest → ℕ → String
  phase_msg done req conns = join "" (
      "Phase "
      ∷ decimal (done + 1)
      ∷ "/"
      ∷ decimal (length req.steps)
      ∷ ": "
      ∷ decimal conns
      ∷ " connections for "
      ∷ decimal req.phase_duration
      ∷ "s"
      ∷ [])

  -- One turn of `for step_conns in req.steps:`
  unfoldable pub run_phase :
      String → LadderRequest → ℕ → ℕ → Action (World py pg (LadderReport fl)) (Phase fl)
  unfolding note phase_msg phase_of
  run_phase job_id req done conns = ask py pg (LadderReport fl) pg.phase_row >>= λ before.
      note py pg (LadderReport fl) job_id none (phase_msg done req conns)
      >> ask py pg (LadderReport fl)
          (pg.pgbench conns (min conns 16) req.phase_duration (req.mode == "readonly"))
      >>= λ stdout. ask py pg (LadderReport fl) pg.phase_row >>= λ after.
          pure (phase_of py conns before after stdout)

  unfoldable pub run_phases :
      String
      → LadderRequest
      → List ℕ
      → List (Phase fl)
      → Action (World py pg (LadderReport fl)) (List (Phase fl))
  unfolding run_phase
  run_phases job_id req [] phases = pure phases
  run_phases job_id req (conns ∷ steps) phases =
      run_phase job_id req (length phases) conns >>= λ phase.
      run_phases job_id req steps (phases ++ phase ∷ [])

  -- The report, written to its file.
  unfoldable pub save_report :
      LadderRequest → List (Phase fl) → Action (World py pg (LadderReport fl)) (LadderReport fl)
  save_report req phases w =
      let report : LadderReport fl = record {
        id = pg.date_id w.db;
        created_at = pg.clock w.db;
        config = req;
        phases = phases;
      } in
      (ask py pg (LadderReport fl)
            (pg.write_report (join "" ("ladder-" ∷ pg.date_id w.db ∷ ".json" ∷ [])) report)
          >> pure report)
        w

  unfoldable pub run_ladder :
      String → LadderRequest → Action (World py pg (LadderReport fl)) (LadderReport fl)
  unfolding initialize_if run_phases save_report
  run_ladder job_id req = ask py pg (LadderReport fl) pg.pgbench_exists >>= λ exists_.
      initialize_if py pg (LadderReport fl) job_id exists_
      >> run_phases job_id req req.steps []
      >>= λ phases. save_report req phases

  unfoldable pub do_ladder :
      String → LadderRequest → World py pg (LadderReport fl) → World py pg (LadderReport fl)
  unfolding run_ladder end_job
  do_ladder job_id req w = end_job py pg (LadderReport fl) job_id (run_ladder job_id req w)

  -- The handlers of POST /connections and POST /ladder, with the tasks that they add.
  unfoldable pub connection_pressure :
      String
      → ConnectionsRequest
      → World py pg (ConnectionsResult fl)
      → World py pg (ConnectionsResult fl)
  unfolding do_connections
  connection_pressure job_id req w =
      do_connections job_id req
        (record w { jobs = new_job job_id "connections" none (pg.clock w.db) w.jobs })

  unfoldable pub growth_ladder :
      String → LadderRequest → World py pg (LadderReport fl) → World py pg (LadderReport fl)
  unfolding do_ladder
  growth_ladder job_id req w =
      do_ladder job_id req (record w { jobs = new_job job_id "ladder" none (pg.clock w.db) w.jobs })
