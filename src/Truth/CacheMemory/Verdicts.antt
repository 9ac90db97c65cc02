-- ===== src/Truth/CacheMemory/Verdicts.antt =====
-- What a verdict says (truth-service/app/verifiers/cache_memory.py).
use pg_stress.Prelude.{
  String, Bool, if◌then◌else◌, true, false, Option, some, none, List, [], ◌∷◌, ◌≡◌, ◌↔◌, ◌≢◌, refl,
}
use pg_stress.Prelude.Dict.{get}
use pg_stress.Floats.{Floats}
use pg_stress.Truth.CacheMemory.{
  pass, fail, skip, Snapshot, Formats, Sample, Settings, Assertion, true_ratio, assertions_on,
  assert_ratio, all_passed, verdict_of, verify,
}

chosen :
    (b : Bool)
    → (((if b then pass else fail) ≡ pass) ↔ (b ≡ true)) × ((if b then pass else fail) ≢ skip)
chosen true = (((λ h. refl), (λ h. refl)), λ h. absurd (cc))
chosen false = (((λ h. absurd (cc)), (λ h. absurd (cc))), λ h. absurd (cc))

module _ (fl : Floats) (show : Formats fl) (tol : Settings fl) (path : String)
    (snap : Snapshot) where
  verdict-pass :
      (all rest : List (Assertion fl)) (a : Assertion fl)
      → all ≡ a ∷ rest
      → ((verdict_of fl show [] all ≡ pass) ↔ (all_passed fl show all ≡ true))
        × (verdict_of fl show [] all ≢ skip)
  unfolding verdict_of
  verdict-pass [] rest a e = absurd (cc)
  verdict-pass (b ∷ all) rest a e = chosen (all_passed fl show (b ∷ all))

  -- The verdict is PASS exactly when a recent sample was found and all assertions on it hold, and it is
  -- never SKIP.
  pub verify-pass :
      (sample : Option (Sample fl))
      → (((verify fl show tol path snap sample).1.1 ≡ pass) ↔ (
          (s : Sample fl) × (sample ≡ some s)
          × (all_passed fl show (assertions_on fl show tol snap s) ≡ true)))
        × ((verify fl show tol path snap sample).1.1 ≢ skip)
  unfolding verify
  verify-pass none = (((λ h. absurd (cc)), (λ w. let (t, e, p) = w in absurd (cc))), λ h. cc)
  verify-pass (some s) =
      let (when, never) =
        verdict-pass (assertions_on fl show tol snap s) _
          (assert_ratio fl show tol (true_ratio fl show snap) (get "cache_hit_ratio" s.deltas))
          refl in
      (
        (
          (λ h. (s, refl, when.0 h)),
          (λ w. let (t, e, p) = w in let same : t ≡ s = cc in when.1 (rw same at p)),
        ),
        never,
      )
