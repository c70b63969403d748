-- ===== src/Store/Sync/Failures.antt =====
-- How failed syncs are counted and reported.
use statsig_go_sdk.Prelude.{
  ◌+◌, ◌*◌, ◌≤◌, ◌<◌, ◌≡◌, refl, ◌↔◌, Bool, false, [], ◌∷◌, arith, ltb, ltb-ge, ltb→lt, Bool-cases,
  inl, inr,
}
use statsig_go_sdk.Runtime.{Runtime}
use statsig_go_sdk.Spec.{DownloadConfigSpecResponse}
use statsig_go_sdk.Store.State.{Store}
use statsig_go_sdk.Store.Specs.{process_config_specs}
use statsig_go_sdk.Store.Sync.{
  Setup, log_exception, received, sync_outdated_max, handle_sync_error,
  fetch_config_specs_from_server,
}

module _ (setup : Setup) (s : Store) where
  -- After a failure of a poll, the failures that are counted make up two minutes at most: the
  -- failure that would pass two minutes is reported, once, and the count starts again. A failure
  -- that is not reported adds one.
  pub handle_sync_error-bounded :
      let (s', effects) = handle_sync_error setup s false in
      (s'.sync_failure_count * setup.config_sync_interval ≤ sync_outdated_max)
      × ((effects ≡ log_exception ∷ [])
          ↔ (sync_outdated_max < (s.sync_failure_count + 1) * setup.config_sync_interval))
      × ((effects ≡ []) → s'.sync_failure_count ≡ s.sync_failure_count + 1)
  unfolding handle_sync_error
  handle_sync_error-bounded =
      elim (Bool-cases
        (ltb sync_outdated_max ((s.sync_failure_count + 1) * setup.config_sync_interval))) [
          | inl late ↦ rw late (omega arith, (λ _. ltb→lt _ _ late, λ _. refl), λ e. cc)
          | inr soon ↦
              rw soon (
                ltb-ge _ _ soon,
                (λ e. cc, λ lt. absurd (omega (arith, ltb-ge _ _ soon))),
                λ _. refl,
              )
        ]

  -- A sync that succeeds leaves the count as it was: failures need not follow one another to be
  -- reported as a failure of two minutes.
  pub fetch_config_specs_from_server-count :
      (r : Runtime) (is_cold_start : Bool) (specs : DownloadConfigSpecResponse)
      → (fetch_config_specs_from_server r setup s is_cold_start
          (received specs)).0.sync_failure_count
        ≡ s.sync_failure_count
  unfolding fetch_config_specs_from_server process_config_specs
  fetch_config_specs_from_server-count r is_cold_start specs = ground arith
