-- ===== src/Evaluator/Api/Overrides.antt =====
-- What the local overrides make of a later check.
use statsig_go_sdk.Prelude.{String, ◌≡◌, none}
use statsig_go_sdk.Dict.{lookup}
use statsig_go_sdk.Runtime.{Runtime}
use statsig_go_sdk.Types.{User}
use statsig_go_sdk.Store.State.{get_gate, get_dynamic_config, get_layer_config}
use statsig_go_sdk.Evaluator.Result.{ok}
use statsig_go_sdk.Evaluator.Condition.{Evaluator, unrecognized_result, eval_gate}
use statsig_go_sdk.Evaluator.Api.{eval_config, eval_layer, check_gate, get_config, get_layer}

module _ (r : Runtime) (e : Evaluator) (user : User) where
  -- A name that is neither overridden nor known to the store gives the unrecognized result: it
  -- fails, with no exposures, and nothing panics.
  pub check_unrecognized :
      (name : String)
      → lookup name e.gate_overrides ≡ none
      → lookup name e.config_overrides ≡ none
      → lookup name e.layer_overrides ≡ none
      → get_gate e.store name ≡ none
      → get_dynamic_config e.store name ≡ none
      → get_layer_config e.store name ≡ none
      → (check_gate r e user name ≡ ok (unrecognized_result r e))
        × (get_config r e user name ≡ ok (unrecognized_result r e))
        × (get_layer r e user name ≡ ok (unrecognized_result r e))
  unfolding check_gate get_config get_layer eval_gate eval_config eval_layer
  check_unrecognized name g c l gs cs ls = (rw (g, gs), rw (c, cs), rw (l, ls))
