-- ===== src/Logger/Flush.antt =====
-- logger.go: the diagnostics that a flush logs, and the flush.
use statsig_go_sdk.Prelude.{ℕ, String, Bool, List, [], ◌∷◌, ◌++◌, if◌then◌else◌}
use statsig_go_sdk.Prelude.Int.{ℤ}
use statsig_go_sdk.Diagnostics.{
  DiagnosticsBase, DiagnosticsContext, initialize, config_sync, api_call, Diagnostics,
  serialize_with_sampling, clear_markers,
}
use statsig_go_sdk.Logger.{diagnostic, Batch, LoggerOptions, Logger, flush_internal, log_internal}

module _ (now : ℤ) where
  abbrev pub is_disabled : LoggerOptions → DiagnosticsContext → Bool
  is_disabled options initialize = options.disable_init_diagnostics
  is_disabled options config_sync = options.disable_sync_diagnostics
  is_disabled options api_call = options.disable_api_diagnostics

  -- `logDiagnosticsEvent`
  unfoldable pub log_diagnostics_event :
      (String → ℕ) → Logger → DiagnosticsBase → Logger × DiagnosticsBase × List Batch
  unfolding log_internal serialize_with_sampling
  log_diagnostics_event draw l d =
      if is_disabled l.options d.context
      then (l, d, [])
      else elim (serialize_with_sampling draw d) [
        | [] ↦ (l, d, [])
        | m ∷ ms ↦
            let (l', batches) = log_internal l (
              diagnostic (record {
                event_name = "statsig::diagnostics";
                context = d.context;
                markers = m ∷ ms;
                time = now;
              })) in
            (l', clear_markers d, batches)
      ]

  -- `logDiagnosticsEvents`
  unfoldable pub log_diagnostics_events :
      (DiagnosticsContext → String → ℕ) → Logger → Diagnostics → Logger × Diagnostics × List Batch
  unfolding log_diagnostics_event
  log_diagnostics_events draw l d =
      let (l1, init, sent1) = log_diagnostics_event (draw initialize) l d.init_diagnostics in
      let (l2, sync, sent2) = log_diagnostics_event (draw config_sync) l1 d.sync_diagnostics in
      let (l3, api, sent3) = log_diagnostics_event (draw api_call) l2 d.api_diagnostics in
      (
        l3,
        record { init_diagnostics = init; sync_diagnostics = sync; api_diagnostics = api },
        sent1 ++ (sent2 ++ sent3),
      )

  -- `flush`
  unfoldable pub flush :
      (DiagnosticsContext → String → ℕ)
      → Logger
      → Diagnostics
      → Bool
      → Logger × Diagnostics × List Batch
  unfolding log_diagnostics_events flush_internal
  flush draw l d closing =
      let (l1, d', sent1) = log_diagnostics_events draw l d in
      let (l2, sent2) = flush_internal l1 closing in (l2, d', sent1 ++ sent2)
