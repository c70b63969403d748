-- ===== src/Store/Sync/Startup.antt =====
-- Where a new store takes its specs from.
use statsig_go_sdk.Prelude.{String, ◌≡◌, true, false, Option, some, [], append-nil, ◌==◌}
use statsig_go_sdk.Prelude.Int.{pos, eq_ℤ}
use statsig_go_sdk.Runtime.{Runtime}
use statsig_go_sdk.Spec.{DownloadConfigSpecResponse}
use statsig_go_sdk.Store.State.{
  EvaluationReason, network, bootstrap, data_adapter, Store, empty_store,
}
use statsig_go_sdk.Store.Specs.{set_config_specs, process_config_specs}
use statsig_go_sdk.Store.Sync.{
  Setup, Answer, received, notify, fetch_config_specs_from_server, fetch_config_specs_from_adapter,
  load_locally, load_config_specs,
}

-- The store that an answer with updates makes of an empty one.
abbrev pub loaded_store : EvaluationReason → DownloadConfigSpecResponse → Store
loaded_store reason specs = record (set_config_specs empty_store specs).0 {
  init_reason = reason;
  initial_sync_time = specs.time;
}

module _ (r : Runtime) (setup : Setup) (specs : DownloadConfigSpecResponse)
    (updates : specs.has_updates ≡ true) where
  module _ (timed : eq_ℤ specs.time (pos 0) ≡ false) (answer : Answer) where
    -- Specs of the adapter, with updates and a time, are taken without the network, whatever the
    -- bootstrap values; nothing is reported or saved.
    pub load_config_specs-adapter :
        {text : String}
        → setup.has_adapter ≡ true
        → r.unmarshal_specs text ≡ some specs
        → load_config_specs r setup (some text) answer ≡ (loaded_store data_adapter specs, [])
    unfolding load_config_specs load_locally fetch_config_specs_from_adapter process_config_specs
        set_config_specs
    load_config_specs-adapter adapter decoded = rw (adapter, decoded, updates, timed)

    -- Without an adapter, bootstrap values with updates and a time are taken without the network.
    pub load_config_specs-bootstrap :
        (got : Option String)
        → setup.has_adapter ≡ false
        → (setup.bootstrap_values == "") ≡ false
        → r.unmarshal_specs setup.bootstrap_values ≡ some specs
        → load_config_specs r setup got answer ≡ (loaded_store bootstrap specs, [])
    unfolding load_config_specs load_locally process_config_specs set_config_specs
    load_config_specs-bootstrap got plain given decoded = rw (plain, given, decoded, updates, timed)

  -- Without an adapter and bootstrap values the specs are the server's, if it answers with updates;
  -- the callback is told.
  pub load_config_specs-network :
      (got : Option String)
      → setup.has_adapter ≡ false
      → setup.bootstrap_values ≡ ""
      → load_config_specs r setup got (received specs)
        ≡ (loaded_store network specs, notify r setup specs)
  unfolding load_config_specs load_locally fetch_config_specs_from_server process_config_specs
      set_config_specs
  load_config_specs-network got plain empty = rw (plain, empty, updates, append-nil)
