-- ===== src/ControlPlane/Intensity/Tests.antt =====
-- Runs of the intensity presets on small inputs (control-plane/main.py).
use pg_stress.Prelude.{
  ℕ, ◌+◌, ◌⊎◌, String, Option, some, none, [], ◌∷◌, ◌==◌, if◌then◌else◌, ◌≡◌, refl,
}
use pg_stress.Prelude.Chars.{
  Chars, codes, splitlines, is_break, strip, is_space, starts_with, any_char, before_first,
  after_first,
}
use pg_stress.Prelude.Dict.{keys}
use pg_stress.Prelude.Http.{is_replied}
use pg_stress.Prelude.Result.{ok}
use pg_stress.ControlPlane.Containers.{Container, Docker, returned}
use pg_stress.ControlPlane.Intensity.{
  IntensityWorld, written, cut_short, first_chars, set_intensity, read_env, new_env, or_empty,
  preset_of, is_managed,
}
use pg_stress.ControlPlane.Intensity.EnvFile.{env_text, update, lookup, read_preset}
use pg_stress.ControlPlane.Intensity.Lookups.{or_else}
use pg_stress.ControlPlane.Intensity.Applying.{
  effective, set_intensity-file, set_intensity-error, new_env-effective,
}

abbrev generator : Container
generator = record {
  id = "c1";
  name = "load-generator";
  status = "running";
  health = none;
  started_at = none;
  networks = "stress-net" ∷ [];
  env = some (codes "PG_HOST=postgres" ∷ codes "ORM_POOL=5" ∷ []);
}

-- One container; the state counts the containers that were started.
abbrev one_container : Docker ℕ
one_container = record {
  list_service = λ s d. (ok (if s == "load-generator" then generator ∷ [] else []), d);
  image_id = λ c d. (ok "sha", d);
  stop = λ c d. (ok tt, d);
  remove = λ c d. (ok tt, d);
  restart = λ c d. (ok tt, d);
  run = λ img name env net d. (ok tt, d + 1);
  compose_up = λ profile service d. (returned 0, d);
}

-- ORM_POOL = 9 with spaces, a comment, an empty line, and a line that sets nothing.
abbrev preset_text : Chars
preset_text = codes "# low\n ORM_POOL = 9\n\nloose\n"

abbrev presets : String → Option Chars
presets level = if level == "low" then some preset_text else none

abbrev world : IntensityWorld ℕ
world = record {
  environ = [];
  project_env = some (codes "PG_HOST=db\nORM_POOL=1\n");
  containers = 0;
}

set_intensity-file_example :
    lookup
      (codes "PG_HOST")
      (read_env (set_intensity one_container presets written "low" world).1.project_env)
    ≡ or_else
        (lookup (codes "PG_HOST") (preset_of preset_text []).applied)
        (lookup (codes "PG_HOST") (read_env world.project_env))
unfolding keys preset_of read_preset splitlines is_break strip is_space starts_with any_char
    before_first after_first
set_intensity-file_example =
    set_intensity-file one_container presets "low" world preset_text refl refl refl
      (codes "PG_HOST")

-- The disk is full after three characters of the file.
set_intensity-error_example :
    let w' = (set_intensity one_container presets (cut_short 3) "low" world).1 in
    (w'.containers ≡ 0)
    × ((w'.project_env ≡ world.project_env)
        ⊎ ((n : ℕ) × (text : Chars) × (cut_short 3 ≡ cut_short n)
            × (presets "low" ≡ some text)
            × (w'.project_env
                ≡ some (
                    first_chars n (
                      env_text "low"
                        (update (read_env world.project_env) (preset_of text []).applied))))))
unfolding is_replied set_intensity keys preset_of read_preset splitlines is_break strip is_space
    starts_with any_char before_first after_first
set_intensity-error_example =
    set_intensity-error one_container presets "low" (cut_short 3) world refl

new_env-effective_example :
    effective (codes "PG_HOST") (new_env generator.env (preset_of preset_text []).applied)
    ≡ or_else (lookup (codes "PG_HOST") (preset_of preset_text []).applied) (
        if is_managed (codes "PG_HOST")
        then none
        else effective (codes "PG_HOST") (or_empty generator.env))
new_env-effective_example = new_env-effective generator.env preset_text [] (codes "PG_HOST")
