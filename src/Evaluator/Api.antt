-- ===== src/Evaluator/Api.antt =====
-- evaluator.go: `checkGate`, `getConfig` and `getLayer` with `evalConfig` and `evalLayer`, and the
-- three local overrides.
pub mod Overrides
use statsig_go_sdk.Prelude.{ℕ, ◌+◌, String, Bool, true, false, Option, none, some, List, [], ◌∷◌}
use statsig_go_sdk.Dict.{Dict, lookup, insert}
use statsig_go_sdk.Value.{Object}
use statsig_go_sdk.Runtime.{Runtime}
use statsig_go_sdk.Types.{User, new_config}
use statsig_go_sdk.Spec.{ConfigSpec}
use statsig_go_sdk.Store.State.{local_override, get_dynamic_config, get_layer_config}
use statsig_go_sdk.Evaluator.Result.{EvalResult, zero_result, Outcome, ok}
use statsig_go_sdk.Evaluator.Condition.{
  Evaluator, create_evaluation_details, unrecognized_result, eval_gate,
}
use statsig_go_sdk.Evaluator.Eval.{eval}

-- More than the depths that `eval` allows.
abbrev pub eval_fuel : ℕ
eval_fuel = 302

-- `OverrideGate`, `OverrideConfig` and `OverrideLayer`
unfoldable pub override_gate : Evaluator → String → Bool → Evaluator
override_gate e gate val = record e { gate_overrides = insert gate val e.gate_overrides }

unfoldable pub override_config : Evaluator → String → Object → Evaluator
override_config e config val = record e { config_overrides = insert config val e.config_overrides }

unfoldable pub override_layer : Evaluator → String → Object → Evaluator
override_layer e layer val = record e { layer_overrides = insert layer val e.layer_overrides }

module _ (r : Runtime) (e : Evaluator) where
  abbrev pub object_override_result : String → Object → EvalResult
  object_override_result name value = record zero_result {
    pass = true;
    config_value = new_config name (some value) "override";
    id = "override";
    evaluation_details = some (create_evaluation_details r e local_override);
  }

  module _ (rec : ConfigSpec → ℕ → Outcome EvalResult) where
    abbrev evaluated : Option ConfigSpec → ℕ → Outcome EvalResult
    evaluated none depth = ok (unrecognized_result r e)
    evaluated (some spec) depth = rec spec (depth + 1)

    abbrev object_or_override : Option Object → Option ConfigSpec → String → ℕ → Outcome EvalResult
    object_or_override (some value) spec name depth = ok (object_override_result name value)
    object_or_override none spec name depth = evaluated spec depth

    unfoldable pub eval_config : String → ℕ → Outcome EvalResult
    eval_config config_name depth =
        object_or_override (lookup config_name e.config_overrides)
          (get_dynamic_config e.store config_name) config_name depth

    unfoldable pub eval_layer : String → ℕ → Outcome EvalResult
    eval_layer name depth =
        object_or_override (lookup name e.layer_overrides) (get_layer_config e.store name) name
          depth

  module _ (user : User) where
    unfoldable pub check_gate : String → Outcome EvalResult
    check_gate gate_name = eval_gate r e user (eval r e user eval_fuel) gate_name 0

    unfoldable pub get_config : String → Outcome EvalResult
    get_config config_name = eval_config (eval r e user eval_fuel) config_name 0

    unfoldable pub get_layer : String → Outcome EvalResult
    get_layer name = eval_layer (eval r e user eval_fuel) name 0
