-- ===== src/ControlPlane/Intensity.antt =====
-- The intensity presets of the control plane (control-plane/main.py: `get_config`, `set_intensity`).
pub mod EnvFile
pub mod Lookups
pub mod Reading
pub mod Writing
pub mod Applying
mod Tests
use pg_stress.Prelude.{
  ℕ, zero, suc, String, Bool, true, false, Option, some, none, List, [], ◌∷◌, ◌++◌, map, length,
  keep_if, elem, not, leb, if◌then◌else◌, ◌==◌, ◌||◌,
}
use pg_stress.Prelude.Action.{Action, ◌>>=◌, ◌>>◌}
use pg_stress.Prelude.Chars.{Chars, codes, chars_eq, splitlines, starts_with}
use pg_stress.Prelude.Dict.{Dict, get, keys, has}
use pg_stress.Prelude.Http.{Reply, http_error, crash, replied}
use pg_stress.Prelude.Int.{ℤ, pos, leb_ℤ}
use pg_stress.Prelude.Result.{Result, ok, raise, os_error, value_error}
use pg_stress.ControlPlane.Containers.{Container, Docker, find_container}
use pg_stress.ControlPlane.Intensity.EnvFile.{
  Env, lookup, update, read_existing, Preset, read_preset, setting_line, env_text,
}

abbrev pub intensity_presets : Dict String
intensity_presets =
    ("low", "Light load. No chaos. Safe for small databases.")
    ∷ ("medium", "Standard OLTP. Moderate bursts. Chaos at 25%.")
    ∷ ("high", "Heavy stress. 80 connections. Chaos at 50%. Finds breaking points.")
    ∷ []

-- `os.environ.get(key, default)`
unfoldable pub environ_or : String → String → Env → Chars
environ_or key default environ = elim (lookup (codes key) environ) [
  | none ↦ codes default
  | some v ↦ v
]

unfoldable pub level_of : Option ℤ → Result String
level_of none = raise value_error
level_of (some n) = ok (if leb_ℤ (pos 80) n then "high" else "medium")

-- The level that the environment stands for; `int_of` is Python's `int`.
unfoldable pub current_level : (Chars → Option ℤ) → Env → Result String
unfolding environ_or level_of
current_level int_of environ =
    if chars_eq (environ_or "LOADGEN_CHAOS_PROBABILITY" "25" environ) (codes "0")
    then ok "low"
    else level_of (int_of (environ_or "LOADGEN_BURST_HEAVY_CONNS" "50" environ))

unfoldable pub starts_any : List String → Chars → Bool
starts_any [] e = false
starts_any (p ∷ ps) e = starts_with e (codes p) || starts_any ps e

-- The variables that `get_config` shows.
unfoldable pub env_vars : Env → Env
unfolding starts_any
env_vars environ =
    keep_if (λ x. starts_any ("LOADGEN_" ∷ "ORM_" ∷ "PGBENCH_" ∷ "STRESS_" ∷ "PG_" ∷ []) x.0)
      environ

-- A variable that a preset replaces as a whole.
unfoldable pub is_managed : Chars → Bool
unfolding starts_any
is_managed e =
    starts_any ("LOADGEN_" ∷ "ORM_" ∷ "PGBENCH_" ∷ "STRESS_LIMIT_" ∷ "STRESS_MAX_" ∷ []) e

unfoldable pub or_empty : Option (List Chars) → List Chars
or_empty none = []
or_empty (some env) = env

unfoldable pub new_env : Option (List Chars) → Env → List Chars
unfolding is_managed or_empty
new_env current_env applied =
    keep_if (λ e. not (is_managed e)) (or_empty current_env) ++ map setting_line applied

unfoldable pub network_of : List String → String
network_of [] = "pg-stress_stress-net"
network_of (n ∷ ns) = n

-- The `.env` file of the project as a dictionary; no file reads as the empty one.
unfoldable pub read_env : Option Chars → Env
read_env none = []
read_env (some text) = read_existing [] (splitlines text)

pub record Applied : Type 0 where
  pub intensity : String
  pub description : Option String
  pub vars_set : ℕ
  pub restarted : List String

-- How the file of the project is written: `open` truncates it, and each write may fail after some of its
-- characters. `cut_short n` keeps the first `n` characters of the text.
pub data FileOutcome : Type 0 where
  written : FileOutcome
  not_opened : FileOutcome
  cut_short : ℕ → FileOutcome

unfoldable pub first_chars : ℕ → Chars → Chars
first_chars zero cs = []
first_chars (suc n) [] = []
first_chars (suc n) (c ∷ cs) = c ∷ first_chars n cs

-- What is in the file after it is written, from what it held.
unfoldable pub file_after : FileOutcome → Chars → Option Chars → Option Chars
unfolding first_chars
file_after written text old = some text
file_after not_opened text old = old
file_after (cut_short n) text old = some (first_chars n text)

-- What `set_intensity` can change.
pub record IntensityWorld (D : Type 0) : Type 0 where
  pub environ : Env
  pub project_env : Option Chars
  pub containers : D

unfoldable pub preset_of : Chars → Env → Preset
preset_of text environ =
    read_preset (record { applied = []; environ = environ; raised = false }) (splitlines text)

module _ {D : Type 0} (docker : Docker D) where
  -- The body of the `try`.
  unfoldable pub recreate : Container → Env → Action D (Unit {0})
  unfolding new_env network_of
  recreate c applied = docker.image_id c >>= λ img.
      docker.stop c
      >> docker.remove c
      >> docker.run img c.name (new_env c.env applied) (network_of c.networks)

  unfoldable pub restarted_if : String → List String → Result (Unit {0}) × D → List String × D
  restarted_if svc restarted (ok u, d) = (restarted ++ svc ∷ [], d)
  restarted_if svc restarted (raise e, d) = (restarted, d)

  unfoldable pub recreate_found :
      String → Env → List String → Option Container → D → List String × D
  unfolding recreate restarted_if
  recreate_found svc applied restarted none d = (restarted, d)
  recreate_found svc applied restarted (some c) d =
      if c.status == "running"
      then restarted_if svc restarted (recreate c applied d)
      else (restarted, d)

  -- `for svc_name in [...]:`
  unfoldable pub recreate_all : List String → Env → List String → D → List String × D
  unfolding recreate_found
  recreate_all [] applied restarted d = (restarted, d)
  recreate_all (svc ∷ svcs) applied restarted d =
      let (c, d') = find_container docker svc d in
      let (done, d'') = recreate_found svc applied restarted c d' in
      recreate_all svcs applied done d''

  -- From the file of the project on.
  unfoldable pub finish_apply :
      FileOutcome → String → Preset → Chars → IntensityWorld D → Reply Applied × IntensityWorld D
  unfolding file_after recreate_all
  finish_apply written level p text w =
      let (restarted, d) =
        recreate_all ("load-generator" ∷ "load-generator-orm" ∷ []) p.applied [] w.containers in
      (
        replied (record {
          intensity = level;
          description = get level intensity_presets;
          vars_set = length p.applied;
          restarted = restarted;
        }),
        record {
          environ = p.environ;
          project_env = file_after written text w.project_env;
          containers = d;
        },
      )
  finish_apply not_opened level p text w = (
    crash os_error,
    record w { environ = p.environ; project_env = file_after not_opened text w.project_env },
  )
  finish_apply (cut_short n) level p text w = (
    crash os_error,
    record w { environ = p.environ; project_env = file_after (cut_short n) text w.project_env },
  )

  -- From the preset that was read: an assignment to the environment may have raised.
  unfoldable pub apply_preset :
      FileOutcome → String → Preset → IntensityWorld D → Reply Applied × IntensityWorld D
  unfolding read_env finish_apply
  apply_preset outcome level p w =
      let refused : Reply Applied × IntensityWorld D =
        (crash os_error, record w { environ = p.environ }) in
      let done =
        finish_apply outcome level p (env_text level (update (read_env w.project_env) p.applied))
          w in
      if p.raised then refused else done

  unfoldable pub apply_file :
      FileOutcome → String → Option Chars → IntensityWorld D → Reply Applied × IntensityWorld D
  unfolding apply_preset preset_of
  apply_file outcome level none w = (http_error 500, w)
  apply_file outcome level (some text) w = apply_preset outcome level (preset_of text w.environ) w

  -- `presets` is the text of a file of INTENSITY_DIR, if it is there.
  unfoldable pub set_intensity :
      (String → Option Chars)
      → FileOutcome
      → String
      → IntensityWorld D
      → Reply Applied × IntensityWorld D
  unfolding apply_file
  set_intensity presets outcome level w =
      if elem level (keys intensity_presets)
      then apply_file outcome level (presets level) w
      else (http_error 400, w)
