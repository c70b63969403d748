-- ===== src/Store/Specs.antt =====
-- store.go: `setConfigSpecs` and `processConfigSpecs`.
pub mod Laws
use statsig_go_sdk.Prelude.{
  String, Bool, true, false, Option, none, some, List, [], ◌∷◌, if◌then◌else◌,
}
use statsig_go_sdk.Dict.{Dict, insert}
use statsig_go_sdk.Runtime.{Runtime}
use statsig_go_sdk.Spec.{ConfigSpec, DownloadConfigSpecResponse}
use statsig_go_sdk.Store.State.{Store}

-- The loops that fill `newGates`, `newConfigs` and `newLayers`.
unfoldable pub specs_by_name : List ConfigSpec → Dict ConfigSpec → Dict ConfigSpec
specs_by_name [] m = m
specs_by_name (spec ∷ specs) m = specs_by_name specs (insert spec.name spec m)

-- The inner and the outer loop that fill `newExperimentToLayer`.
unfoldable pub layer_of_each : String → List String → Dict String → Dict String
layer_of_each layer_name [] m = m
layer_of_each layer_name (experiment ∷ experiments) m =
    layer_of_each layer_name experiments (insert experiment layer_name m)

unfoldable pub layers_by_experiment : Dict (List String) → Dict String → Dict String
layers_by_experiment [] m = m
layers_by_experiment ((layer_name, experiments) ∷ layers) m =
    layers_by_experiment layers (layer_of_each layer_name experiments m)

-- `updateSamplingRates`, on the diagnostics of the initialization and of the syncs.
abbrev update_sampling_rates : Store → DownloadConfigSpecResponse → Store
update_sampling_rates s specs = record s { sampling_rates = specs.diagnostics_sample_rates }

-- `setConfigSpecs`
unfoldable pub set_config_specs : Store → DownloadConfigSpecResponse → Store × Bool
set_config_specs s specs =
    if specs.has_updates
    then (
      record (update_sampling_rates s specs) {
        feature_gates = specs_by_name specs.feature_gates [];
        dynamic_configs = specs_by_name specs.dynamic_configs [];
        layer_configs = specs_by_name specs.layer_configs [];
        experiment_to_layer = layers_by_experiment specs.layers [];
        sdk_keys_to_app_id = specs.sdk_keys_to_app_id;
        last_sync_time = specs.time;
      },
      true,
    )
    else (update_sampling_rates s specs, false)

-- What `processConfigSpecs` is given: a text, or an answer that is decoded already.
pub data ConfigSpecs : Type 0 where
  raw : String → ConfigSpecs
  decoded : DownloadConfigSpecResponse → ConfigSpecs

module _ (r : Runtime) where
  abbrev pub set_unmarshalled : Store → Option DownloadConfigSpecResponse → Store × Bool
  set_unmarshalled s none = (s, false)
  set_unmarshalled s (some specs) = set_config_specs s specs

  -- `processConfigSpecs`
  unfoldable pub process_config_specs : Store → ConfigSpecs → Store × Bool
  unfolding set_config_specs
  process_config_specs s (raw text) = set_unmarshalled s (r.unmarshal_specs text)
  process_config_specs s (decoded specs) = set_config_specs s specs
