-- ===== src/ControlPlane/Pressure/Tests.antt =====
-- A ladder of two steps (control-plane/main.py).
use pg_stress.Prelude.{ℕ, ◌+◌, false, some, none, [], ◌∷◌, map, ◌≡◌, refl}
use pg_stress.Prelude.Int.{pos}
use pg_stress.Prelude.Dict.{get}
use pg_stress.Prelude.Result.{ok}
use pg_stress.Samples.Fixed.{hundredths}
use pg_stress.ControlPlane.Jobs.{Job, completed}
use pg_stress.ControlPlane.Pressure.{
  LadderRequest, LadderReport, OutputTexts, Bench, World, growth_ladder,
}
use pg_stress.ControlPlane.Pressure.Phases.{IsAnswering, growth_ladder-phases}

abbrev whole_text : OutputTexts hundredths
whole_text = record {
  splitlines = λ s. s ∷ [];
  split_at = λ sep s. s ∷ [];
  split = λ s. s ∷ [];
  strip = λ s. s;
  float = λ s. none;
  last_thousand = λ s. s;
}

-- The state is the clock.
abbrev quiet : Bench hundredths ℕ
quiet = record {
  clock = λ d. d;
  date_id = λ d. "20250101-000000";
  text_of = λ e. "error";
  pgbench_exists = λ d. (ok false, d);
  initialize = λ d. (ok tt, d + 1);
  counters = λ d. (ok none, d);
  phase_row = λ d. (ok none, d);
  pgbench = λ c t s o d. (ok "done", d + s);
  write_report = λ n r d. (ok tt, d);
}

quiet-IsAnswering : IsAnswering quiet
quiet-IsAnswering = record {
  exists_ = λ d. (false, d, refl);
  initialize = λ d. (tt, d + 1, refl);
  phase_row = λ d. (none, d, refl);
  pgbench = λ c t s o d. ("done", d + s, refl);
  write_report = λ n r d. (tt, d, refl);
}

abbrev two_steps : LadderRequest
two_steps = record { steps = 10 ∷ 25 ∷ []; phase_duration = 180; mode = "mixed" }

abbrev at_start : World whole_text quiet (LadderReport hundredths)
at_start = record { db = 0; jobs = [] }

growth_ladder-phases_example :
    (j : Job (Unit {0}) (LadderReport hundredths)) × (r : LadderReport hundredths) × (get "a1"
        (growth_ladder whole_text quiet "a1" two_steps at_start).jobs
      ≡ some j)
    × (j.status ≡ completed)
    × (j.progress ≡ pos 100)
    × (j.result ≡ some r)
    × (map (λ x. x.connections) r.phases ≡ 10 ∷ 25 ∷ [])
growth_ladder-phases_example =
    growth_ladder-phases whole_text quiet quiet-IsAnswering "a1" two_steps at_start
