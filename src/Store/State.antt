-- ===== src/Store/State.antt =====
-- store.go: the state that the evaluator reads, and the getters on it. evaluation_details.go.
-- The transport, the adapter, the callback and the diagnostics of the Go struct are not in it.
use statsig_go_sdk.Prelude.{ℕ, String, Bool, false, Option, List, []}
use statsig_go_sdk.Prelude.Int.{ℤ, pos}
use statsig_go_sdk.Dict.{Dict, lookup}
use statsig_go_sdk.Text.{Codes}
use statsig_go_sdk.Runtime.{Runtime}
use statsig_go_sdk.Spec.{ConfigSpec}

-- `evaluationReason`
pub data EvaluationReason : Type 0 where
  network bootstrap local_override unrecognized uninitialized data_adapter : EvaluationReason

pub record EvaluationDetails : Type 0 where
  pub reason : EvaluationReason
  pub config_sync_time : ℤ
  pub init_time : ℤ
  pub server_time : ℤ

unfoldable pub new_evaluation_details : Runtime → EvaluationReason → ℤ → ℤ → EvaluationDetails
new_evaluation_details r reason config_sync_time init_time = record {
  reason = reason;
  config_sync_time = config_sync_time;
  init_time = init_time;
  server_time = r.now_milli;
}

-- `idList`; `ids` is `none` for a nil `*sync.Map`, and else the list of its keys.
pub record IdList : Type 0 where
  pub name : String
  pub size : ℕ
  pub creation_time : ℤ
  pub url : String
  pub file_id : String
  pub ids : Option (List Codes)

pub record Store : Type 0 where
  pub feature_gates : Dict ConfigSpec
  pub dynamic_configs : Dict ConfigSpec
  pub layer_configs : Dict ConfigSpec
  pub experiment_to_layer : Dict String
  pub sdk_keys_to_app_id : Dict String
  pub id_lists : Dict IdList
  pub last_sync_time : ℤ
  pub initial_sync_time : ℤ
  pub init_reason : EvaluationReason
  pub initialized_id_lists : Bool
  pub shutdown : Bool
  pub sync_failure_count : ℕ
  pub sampling_rates : Dict ℤ

abbrev pub get_gate : Store → String → Option ConfigSpec
get_gate s name = lookup name s.feature_gates

abbrev pub get_dynamic_config : Store → String → Option ConfigSpec
get_dynamic_config s name = lookup name s.dynamic_configs

abbrev pub get_layer_config : Store → String → Option ConfigSpec
get_layer_config s name = lookup name s.layer_configs

abbrev pub get_experiment_layer : Store → String → Option String
get_experiment_layer s experiment_name = lookup experiment_name s.experiment_to_layer

abbrev pub get_app_id_for_sdk_key : Store → String → Option String
get_app_id_for_sdk_key s client_key = lookup client_key s.sdk_keys_to_app_id

abbrev pub get_id_list : Store → String → Option IdList
get_id_list s name = lookup name s.id_lists

-- The store before its first sync.
abbrev pub empty_store : Store
empty_store = record {
  feature_gates = [];
  dynamic_configs = [];
  layer_configs = [];
  experiment_to_layer = [];
  sdk_keys_to_app_id = [];
  id_lists = [];
  last_sync_time = pos 0;
  initial_sync_time = pos 0;
  init_reason = uninitialized;
  initialized_id_lists = false;
  shutdown = false;
  sync_failure_count = 0;
  sampling_rates = [];
}
