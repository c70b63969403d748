-- ===== src/Client.antt =====
-- client.go: a client, over the evaluator, the logger and the error boundary. The answers of the
-- server are arguments. Diagnostics are left out.
pub mod Calls
pub mod Checks
pub mod Exposures
pub mod UserEnvironment
pub mod Sessions
use statsig_go_sdk.Prelude.{
  ℕ, zero, suc, String, Bool, true, false, not, ◌&&◌, Option, none, some, List, [], ◌∷◌, ◌++◌, ◌==◌,
  ltb, length, map, if◌then◌else◌,
}
use statsig_go_sdk.Prelude.Int.{ℤ}
use statsig_go_sdk.Dict.{Dict, insert, merge}
use statsig_go_sdk.Value.{Object}
use statsig_go_sdk.Runtime.{Runtime}
use statsig_go_sdk.Types.{User, Event, ConfigBase, new_config, new_layer, zero_config}
use statsig_go_sdk.Evaluator.Result.{
  EvalResult, zero_result, Outcome, ok, panic, out_of_fuel, Panic, depth_exceeded, nil_dereference,
  nil_map, ◌>>=◌,
}
use statsig_go_sdk.Evaluator.Condition.{Evaluator}
use statsig_go_sdk.Evaluator.Api.{check_gate, get_config, get_layer}
use statsig_go_sdk.Store.Sync.{stop_polling}
use statsig_go_sdk.Diagnostics.{Diagnostics, DiagnosticsContext}
use statsig_go_sdk.InitializeResponse.Types.{InitializeResponse}
use statsig_go_sdk.InitializeResponse.{get_client_initialize_response}
use statsig_go_sdk.ErrorBoundary.{Boundary, Task, returned, panicked, Captured, capture}
use statsig_go_sdk.Logger.{
  Logger, LogEvent, custom, Batch, log_gate_exposure, log_config_exposure, log_layer_exposure,
  log_custom,
}

-- `Environment`
pub record Environment : Type 0 where
  pub tier : String
  pub params : Dict String

-- `normalizeUser`
unfoldable pub normalize_user : Environment → User → User
normalize_user env user =
    let with_params = merge [] env.params in
    let with_tier = if env.tier == "" then with_params else insert "tier" env.tier with_params in
    record user { statsig_environment = merge with_tier user.statsig_environment }

-- `verifyUser`
unfoldable pub verify_user : User → Bool
verify_user user =
    if user.user_id == "" then elim user.custom_ids [ [] ↦ false | id ∷ ids ↦ true ] else true

-- `gateResponse` and `configResponse`
pub record GateResponse : Type 0 where
  pub value : Bool
  pub rule_id : String

pub record ConfigResponse : Type 0 where
  pub value : Option Object
  pub rule_id : String

-- What the server answers to `/check_gate` and `/get_config`: `none` is an error.
pub record Server : Type 0 where
  pub check_gate : User → String → Option GateResponse
  pub get_config : User → String → Option ConfigResponse

unfoldable pub fetch_gate : Server → User → String → GateResponse
fetch_gate server user gate_name = elim (server.check_gate user gate_name) [
  | none ↦ record { value = false; rule_id = "" }
  | some res ↦ res
]

unfoldable pub fetch_config : Server → User → String → ConfigResponse
fetch_config server user config_name = elim (server.get_config user config_name) [
  | none ↦ record { value = none; rule_id = "" }
  | some res ↦ res
]

-- `fetchConfigFromServer`
unfoldable pub fetch_config_from_server : Server → User → String → EvalResult
unfolding fetch_config
fetch_config_from_server server user config_name =
    let res = fetch_config server user config_name in
    record zero_result {
      config_value = new_config config_name res.value res.rule_id;
      id = res.rule_id;
    }

abbrev pub panic_message : Panic → String
panic_message depth_exceeded = "Statsig Evaluation Depth Exceeded"
panic_message nil_map = "assignment to entry in nil map"
panic_message nil_dereference = "runtime error: invalid memory address or nil pointer dereference"

-- A logger with the batches that were sent.
abbrev pub Logged : Type 0
Logged = Logger × List Batch

-- A task under the error boundary: a panic comes from the evaluation, before anything is logged.
abbrev pub guarded {ℓ} :
    {A : Type ℓ} → A → Boundary → Logger → Outcome (Logged × A) → Outcome (Captured Logged A)
guarded zero_value b l (ok (logged, a)) = ok (capture zero_value b (returned logged a))
guarded zero_value b l (panic p) = ok (capture zero_value b (panicked (l, []) (panic_message p)))
guarded zero_value b l out_of_fuel = out_of_fuel

-- The zero value of `ClientInitializeResponse`.
abbrev pub empty_response : InitializeResponse
empty_response = record {
  feature_gates = [];
  dynamic_configs = [];
  layer_configs = [];
  user_id = "";
  custom_ids = [];
}

-- A layer: its values, and what a read of a parameter logs.
pub record LayerHandle : Type 0 where
  pub config : ConfigBase
  pub expose : Logger → String → Logged

-- What a client holds while it serves one call.
pub record Client : Type 0 where
  pub evaluator : Evaluator
  pub logger : Logger
  pub boundary : Boundary
  pub environment : Environment
