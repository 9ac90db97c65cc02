-- ===== src/ControlPlane/Intensity/Applying.antt =====
-- What `set_intensity` leaves in the environment file and in the containers (control-plane/main.py).
use pg_stress.Prelude.{
  ℕ, String, Bool, true, false, Option, some, none, List, [], ◌∷◌, ◌++◌, map, keep_if, elem, not,
  if◌then◌else◌, ◌≡◌, refl, sym, ap, ◌∙◌, arith, Bool-cases, ◌⊎◌, inl, inr,
}
use pg_stress.Prelude.Chars.{
  Chars, codes, chars_eq, chars_eq_iff, any_char, has_char, before_first, after_first, splitlines,
  starts_with,
}
use pg_stress.Prelude.Chars.Trim.{splitlines-plain, before_first-append, after_first-append}
use pg_stress.Prelude.Dict.{keys}
use pg_stress.Prelude.Http.{http_error, crash, is_replied}
use pg_stress.Prelude.Result.{os_error}
use pg_stress.ControlPlane.Containers.{Docker}
use pg_stress.ControlPlane.Intensity.{
  intensity_presets, starts_any, is_managed, or_empty, new_env, read_env, IntensityWorld, preset_of,
  FileOutcome, written, not_opened, cut_short, first_chars, file_after, finish_apply, apply_preset,
  apply_file, set_intensity,
}
use pg_stress.ControlPlane.Intensity.EnvFile.{Env, lookup, update, env_text, setting_line}
use pg_stress.ControlPlane.Intensity.Lookups.{or_else, lookup-update}
use pg_stress.ControlPlane.Intensity.Reading.{
  IsRead, read_existing-IsRead, read_preset-IsRead, update-IsRead,
}
use pg_stress.ControlPlane.Intensity.Writing.{lookup-env_text}

preset_of-IsRead : (text : Chars) (environ : Env) → IsRead (preset_of text environ).applied
unfolding preset_of
preset_of-IsRead text environ =
    read_preset-IsRead (splitlines text) _ (splitlines-plain text) (tt, tt)

read_env-IsRead : (file : Option Chars) → IsRead (read_env file)
unfolding read_env
read_env-IsRead none = (tt, tt)
read_env-IsRead (some text) =
    read_existing-IsRead (splitlines text) [] (splitlines-plain text) (tt, tt)

-- If the level is known, its preset is there, no assignment to the environment raises, and the file is
-- written, then the file that `set_intensity` writes gives every key the value of the preset, and a key
-- that the preset does not set the value that the file gave before.
pub set_intensity-file :
    {D : Type 0} (docker : Docker D) (presets : String → Option Chars) (level : String)
    → (w : IntensityWorld D) (text : Chars) → elem level (keys intensity_presets) ≡ true
    → presets level ≡ some text
    → (preset_of text w.environ).raised ≡ false
    → (k : Chars)
    → lookup k (read_env (set_intensity docker presets written level w).1.project_env)
      ≡ or_else (lookup k (preset_of text w.environ).applied) (lookup k (read_env w.project_env))
unfolding set_intensity apply_file apply_preset finish_apply file_after read_env keys
set_intensity-file docker presets level w text known there fine k =
    let p = preset_of-IsRead text w.environ in
    let e = read_env-IsRead w.project_env in
    rw (known, there, fine)
      (lookup-env_text level _ k known (update-IsRead _ _ p.0 e)
        ∙ lookup-update k (read_env w.project_env) (preset_of text w.environ).applied p.1)

-- What a call that does not reply leaves: the containers, and the file as it was, or truncated.
abbrev Left :
    {D : Type 0}
    → (String → Option Chars)
    → FileOutcome
    → String
    → IntensityWorld D
    → IntensityWorld D
    → Type 0
Left presets outcome level w w' =
    (w'.containers ≡ w.containers)
    × ((w'.project_env ≡ w.project_env)
        ⊎ ((n : ℕ) × (text : Chars) × (outcome ≡ cut_short n)
            × (presets level ≡ some text)
            × (w'.project_env
                ≡ some (
                    first_chars n (
                      env_text level
                        (update (read_env w.project_env) (preset_of text w.environ).applied))))))

module _ {D : Type 0} (docker : Docker D) (presets : String → Option Chars) (level : String) where
  finish_error :
      (outcome : FileOutcome) (text : Chars) (w : IntensityWorld D)
      → presets level ≡ some text
      → let p = preset_of text w.environ in
        let file = env_text level (update (read_env w.project_env) p.applied) in
        is_replied (finish_apply docker outcome level p file w).0 ≡ false
        → Left presets outcome level w (finish_apply docker outcome level p file w).1
  unfolding finish_apply file_after is_replied
  finish_error written text w there h = absurd (cc)
  finish_error not_opened text w there h = (refl, inl refl)
  finish_error (cut_short n) text w there h = (refl, inr (n, text, refl, there, refl))

  raised_error :
      (outcome : FileOutcome) (text : Chars) (w : IntensityWorld D)
      → presets level ≡ some text
      → (raised : Bool)
      → let p = preset_of text w.environ in
        let file = env_text level (update (read_env w.project_env) p.applied) in
        let r =
          if raised
          then (crash os_error, record w { environ = p.environ })
          else finish_apply docker outcome level p file w in
        is_replied r.0 ≡ false → Left presets outcome level w r.1
  raised_error outcome text w there true h = (refl, inl refl)
  raised_error outcome text w there false h = finish_error outcome text w there h

  file_error :
      (outcome : FileOutcome) (file : Option Chars) (w : IntensityWorld D)
      → presets level ≡ file
      → is_replied (apply_file docker outcome level file w).0 ≡ false
      → Left presets outcome level w (apply_file docker outcome level file w).1
  unfolding apply_file apply_preset
  file_error outcome none w there h = (refl, inl refl)
  file_error outcome (some text) w there h =
      raised_error outcome text w there (preset_of text w.environ).raised h

  level_error :
      (outcome : FileOutcome) (w : IntensityWorld D) (known : Bool)
      → let r =
          if known
          then apply_file docker outcome level (presets level) w
          else (http_error 400, w) in
        is_replied r.0 ≡ false → Left presets outcome level w r.1
  level_error outcome w true h = file_error outcome (presets level) w refl h
  level_error outcome w false h = (refl, inl refl)

  -- If `set_intensity` does not reply, no container has changed, and the file is as it was, unless its
  -- writing was cut short: then it holds the first characters of the text that was to be written.
  pub set_intensity-error :
      (outcome : FileOutcome) (w : IntensityWorld D)
      → is_replied (set_intensity docker presets outcome level w).0 ≡ false
      → let w' = (set_intensity docker presets outcome level w).1 in
        (w'.containers ≡ w.containers)
        × ((w'.project_env ≡ w.project_env)
            ⊎ ((n : ℕ) × (text : Chars) × (outcome ≡ cut_short n)
                × (presets level ≡ some text)
                × (w'.project_env
                    ≡ some (
                        first_chars n (
                          env_text level (
                            update (read_env w.project_env) (preset_of text w.environ).applied))))))
  unfolding set_intensity
  set_intensity-error outcome w h = level_error outcome w (elem level (keys intensity_presets)) h

-- The value of a variable in the environment of a container, where the last entry counts.
abbrev pub effective : Chars → List Chars → Option Chars
effective k [] = none
effective k (e ∷ es) =
    or_else (effective k es)
      (if chars_eq (before_first 61 e) k then some (after_first 61 e) else none)

or_else_assoc : (a b c : Option Chars) → or_else (or_else a b) c ≡ or_else a (or_else b c)
or_else_assoc none b c = refl
or_else_assoc (some v) b c = refl

or_else_right : (a : Option Chars) → a ≡ or_else a none
or_else_right none = refl
or_else_right (some v) = refl

effective-append :
    (k : Chars) (xs ys : List Chars)
    → effective k (xs ++ ys) ≡ or_else (effective k ys) (effective k xs)
effective-append k [] ys = or_else_right (effective k ys)
effective-append k (x ∷ xs) ys =
    rw (effective-append k xs ys) (or_else_assoc (effective k ys) (effective k xs) _)

starts_with-name :
    (e p : Chars) → has_char 61 p ≡ false → starts_with (before_first 61 e) p ≡ starts_with e p
unfolding starts_with before_first any_char
starts_with-name e [] h = refl
starts_with-name [] (d ∷ p) h = refl
starts_with-name (c ∷ e) (d ∷ p) h = ground (arith, starts_with-name e p, h)

is_managed-name : (e : Chars) → is_managed (before_first 61 e) ≡ is_managed e
unfolding is_managed starts_any any_char
is_managed-name e =
    rw
      (
        starts_with-name e (codes "LOADGEN_") refl,
        starts_with-name e (codes "ORM_") refl,
        starts_with-name e (codes "PGBENCH_") refl,
        starts_with-name e (codes "STRESS_LIMIT_") refl,
        starts_with-name e (codes "STRESS_MAX_") refl,
      )
      refl

if_or_else :
    (b : Bool) (o : Option Chars)
    → or_else (if b then none else o) none ≡ (if b then none else or_else o none)
if_or_else true o = refl
if_or_else false o = refl

kept_entry :
    (k e : Chars) (es : List Chars)
    → effective k (keep_if (λ e. not (is_managed e)) es)
      ≡ (if is_managed k then none else effective k es)
    → effective k (keep_if (λ e. not (is_managed e)) (e ∷ es))
      ≡ (if is_managed k then none else effective k (e ∷ es))
kept_entry k e es ih = elim (Bool-cases (chars_eq (before_first 61 e) k)) [
  | inl a ↦
      let m = ap is_managed (sym ((chars_eq_iff (before_first 61 e) k).0 a)) ∙ is_managed-name e in
      elim (Bool-cases (is_managed e)) [
        | inl t ↦ rw (t, ih, m, t) refl
        | inr f ↦ rw (f, ih, m, f) refl
      ]
  | inr a ↦ elim (Bool-cases (is_managed e)) [
    | inl t ↦ rw (t, ih, a, sym (or_else_right (effective k es))) refl
    | inr f ↦ rw (f, a, ih) (if_or_else (is_managed k) (effective k es))
  ]
]

effective-kept :
    (k : Chars) (es : List Chars)
    → effective k (keep_if (λ e. not (is_managed e)) es)
      ≡ (if is_managed k then none else effective k es)
effective-kept k [] = ground arith
effective-kept k (e ∷ es) = kept_entry k e es (effective-kept k es)

setting_head :
    (k j v : Chars) (applied : Env)
    → lookup j applied ≡ none
    → or_else (lookup k applied) (if chars_eq j k then some v else none)
      ≡ (if chars_eq j k then some v else lookup k applied)
setting_head k j v applied n = elim (Bool-cases (chars_eq j k)) [
  | inl e ↦ rw (e, ap (λ x. lookup x applied) (sym ((chars_eq_iff j k).0 e)) ∙ n) refl
  | inr e ↦ rw e (sym (or_else_right (lookup k applied)))
]

effective-settings :
    (k : Chars) (applied : Env)
    → IsRead applied
    → effective k (map setting_line applied) ≡ lookup k applied
unfolding lookup setting_line
effective-settings k [] h = refl
effective-settings k ((j, v) ∷ applied) h =
    rw
      (
        effective-settings k applied (h.0.1, h.1.1),
        before_first-append 61 j v h.0.0.no_sign,
        after_first-append 61 j v h.0.0.no_sign,
      )
      (setting_head k j v applied h.1.0)

-- In the environment that a new container gets, a variable has the value that the preset sets; one that
-- the preset does not set is gone if its name starts with a managed prefix, and else as it was.
pub new_env-effective :
    (current_env : Option (List Chars)) (text : Chars) (environ : Env) (k : Chars)
    → effective k (new_env current_env (preset_of text environ).applied)
      ≡ or_else
          (lookup k (preset_of text environ).applied)
          (if is_managed k then none else effective k (or_empty current_env))
unfolding new_env
new_env-effective current_env text environ k =
    rw
      (
        effective-append k (keep_if (λ e. not (is_managed e)) (or_empty current_env))
            (map setting_line (preset_of text environ).applied),
        effective-settings k (preset_of text environ).applied (preset_of-IsRead text environ),
        effective-kept k (or_empty current_env),
      )
      refl
