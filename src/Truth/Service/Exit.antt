-- ===== src/Truth/Service/Exit.antt =====
-- The exit code of a verification (truth-service/app/main.py).
use pg_stress.Prelude.{
  String, true, false, Option, some, ◌==◌, ◌≡◌, refl, ◌↔◌, arith, Bool-cases, eq_iff, eq_self, inl,
  inr,
}
use pg_stress.Prelude.Dict.{Dict}
use pg_stress.Floats.{Floats}
use pg_stress.Truth.CacheMemory.{
  Verdict, pass, fail, warn, skip, Snapshot, Formats, Sample, Settings, all_passed, assertions_on,
  verify,
}
use pg_stress.Truth.CacheMemory.Verdicts.{verify-pass}
use pg_stress.Truth.Service.{
  Timing, VerificationResult, cache_memory_result, verifier_result, exit_of, exit_code, cli_verify,
  locks_result, replication_result, wal_checkpoints_result,
}

module _ (fl : Floats) (show : Formats fl) where
  exit_of-pass : (v : Verdict) → (exit_of fl show v ≡ 0) ↔ (v ≡ pass)
  unfolding exit_of
  exit_of-pass pass = ((λ h. refl), (λ h. refl))
  exit_of-pass fail = ((λ h. absurd (cc)), (λ h. absurd (cc)))
  exit_of-pass warn = ((λ h. absurd (cc)), (λ h. absurd (cc)))
  exit_of-pass skip = ((λ h. absurd (cc)), (λ h. absurd (cc)))

  other_panel :
      (r : VerificationResult fl) (at : Timing fl) (panel : String)
      → (panel == "cache-memory") ≡ false
      → cli_verify fl show r at panel ≡ 1
  unfolding cli_verify verifier_result exit_code exit_of locks_result replication_result
      wal_checkpoints_result
  other_panel r at panel h = ground (arith, h)

  cache_exit :
      (tol : Settings fl) (path : String) (metadata : Dict String) (old new : Snapshot)
      → (sample : Option (Sample fl)) (at : Timing fl) (panel : String)
      → (panel == "cache-memory") ≡ true
      → (cli_verify fl show
            (cache_memory_result fl show tol path metadata old new sample at)
            at
            panel
          ≡ 0)
        ↔ ((verify fl show tol path new sample).1.1 ≡ pass)
  unfolding cli_verify verifier_result exit_code cache_memory_result
  cache_exit tol path metadata old new sample at panel e =
      rw e (exit_of-pass (verify fl show tol path new sample).1.1)

  -- The exit code is zero exactly if the panel is that of cache and memory, a recent sample was found and
  -- all assertions on it hold; for the panels that are stubs and for an unknown panel it is one.
  pub cli_verify-exit :
      (tol : Settings fl) (path : String) (metadata : Dict String) (old new : Snapshot)
      → (sample : Option (Sample fl)) (at : Timing fl) (panel : String)
      → (cli_verify fl show
            (cache_memory_result fl show tol path metadata old new sample at)
            at
            panel
          ≡ 0)
        ↔ ((panel ≡ "cache-memory")
            × ((s : Sample fl) × (sample ≡ some s)
                × (all_passed fl show (assertions_on fl show tol new s) ≡ true)))
  cli_verify-exit tol path metadata old new sample at panel =
      elim (Bool-cases (panel == "cache-memory")) [
        | inl e ↦
            let x = cache_exit tol path metadata old new sample at panel e in
            let v = (verify-pass fl show tol path new sample).0 in
            ((λ h. ((eq_iff panel "cache-memory").0 e, v.0 (x.0 h))), (λ w. x.1 (v.1 w.1)))
        | inr e ↦ (
          (λ h. absurd (omega (arith, h, other_panel _ at panel e))),
          (λ w. absurd (cc (eq_self "cache-memory", w.0, e))),
        )
      ]
