-- ===== src/InitializeResponse/Ending.antt =====
-- The response ends: its loops run over the specs of the store, and each evaluation ends.
use statsig_go_sdk.Prelude.{
  String, Bool, Option, none, some, [], ◌∷◌, arith, ◌==◌, or_default, Option-cases, inl, inr,
}
use statsig_go_sdk.Dict.{Dict}
use statsig_go_sdk.Value.{Object}
use statsig_go_sdk.Runtime.{Runtime, to_lower}
use statsig_go_sdk.Types.{User}
use statsig_go_sdk.Spec.{ConfigSpec}
use statsig_go_sdk.Store.State.{get_layer_config, get_experiment_layer}
use statsig_go_sdk.Evaluator.Result.{EvalResult, Outcome, Ends, Ends-ok, Ends-if, Ends->>=}
use statsig_go_sdk.Evaluator.Condition.{Evaluator}
use statsig_go_sdk.Evaluator.Eval.Depth.{eval-Ends}
use statsig_go_sdk.Evaluator.Api.{eval_fuel}
use statsig_go_sdk.InitializeResponse.Types.{ConfigResponse}
use statsig_go_sdk.InitializeResponse.{
  merge_maps, is_true, eval_func, gate_to_response, in_layer, as_experiment, plain_config,
  config_to_response, layer_to_response, responses, get_client_initialize_response,
}

merge_maps-Ends : (a : Option Object) (b : Object) → Ends (merge_maps a b)
unfolding merge_maps
merge_maps-Ends (some a) b = λ e. cc
merge_maps-Ends none [] = λ e. cc
merge_maps-Ends none (entry ∷ rest) = λ e. cc

module _ (r : Runtime) (e : Evaluator) (user : User) where
  eval_func-Ends : (spec : ConfigSpec) → Ends (eval_func r e user spec)
  eval_func-Ends spec = eval-Ends r e user eval_fuel spec 0 (omega arith) (omega arith)

  gate_to_response-Ends :
      (name : String) (spec : ConfigSpec) → Ends (gate_to_response r e user name spec)
  unfolding gate_to_response
  gate_to_response-Ends name spec = Ends->>= _ _ (eval_func-Ends spec) (λ res. Ends-ok _)

  in_layer-Ends :
      (spec : ConfigSpec) (result : ConfigResponse) → Ends (in_layer r e user spec result)
  in_layer-Ends spec result =
      elim (Option-cases
        (get_layer_config e.store (or_default (get_experiment_layer e.store spec.name) ""))) [
          | inl missing ↦ rw (in_layer, missing) (Ends-ok _)
          | inr (layer, found) ↦
              rw (in_layer, found) (Ends->>= _ _ (merge_maps-Ends _ _) (λ value. Ends-ok _))
        ]

  as_experiment-Ends :
      (spec : ConfigSpec) (res : EvalResult) (result : ConfigResponse)
      → Ends (as_experiment r e user spec res result)
  as_experiment-Ends spec res result =
      let experiment = record result {
        is_user_in_experiment = some (is_true res.is_experiment_group);
        is_experiment_active = some (is_true spec.is_active);
      } in
      Ends-if (is_true spec.has_shared_params) (in_layer-Ends spec experiment) (Ends-ok experiment)

  config_to_response-Ends :
      (name : String) (spec : ConfigSpec) → Ends (config_to_response r e user name spec)
  unfolding config_to_response
  config_to_response-Ends name spec = Ends->>= _ _ (eval_func-Ends spec) (λ res.
      Ends-if (to_lower r spec.entity == "experiment")
        (as_experiment-Ends spec res (plain_config r e user name spec res)) (Ends-ok _))

  layer_to_response-Ends :
      (name : String) (spec : ConfigSpec) → Ends (layer_to_response r e user name spec)
  unfolding layer_to_response
  layer_to_response-Ends name spec = Ends->>= _ _ (eval_func-Ends spec) (λ res.
      Ends-if (res.config_delegate == "") (Ends-ok _)
        (Ends->>= _ _ (eval_func-Ends _) (λ delegated. Ends-ok _)))

  responses-Ends :
      {A : Type 0} (is_sent : ConfigSpec → Bool) (to_response : String → ConfigSpec → Outcome A)
      → ((name : String) (spec : ConfigSpec) → Ends (to_response name spec))
      → (specs : Dict ConfigSpec) (m : Dict A)
      → Ends (responses r e user is_sent to_response specs m)
  unfolding responses
  responses-Ends is_sent to_response h [] m = Ends-ok m
  responses-Ends is_sent to_response h (entry ∷ specs) m =
      Ends-if (is_sent entry.1)
        (Ends->>= _ _ (h entry.0 entry.1) (λ res. responses-Ends is_sent to_response h specs _))
        (responses-Ends is_sent to_response h specs m)

  pub get_client_initialize_response-Ends :
      (client_key : String) → Ends (get_client_initialize_response r e user client_key)
  unfolding get_client_initialize_response
  get_client_initialize_response-Ends client_key =
      Ends->>= _ _ (responses-Ends _ _ gate_to_response-Ends e.store.feature_gates []) (λ gates.
        Ends->>= _ _ (responses-Ends _ _ config_to_response-Ends e.store.dynamic_configs [])
          (λ configs.
            Ends->>= _ _ (responses-Ends _ _ layer_to_response-Ends e.store.layer_configs [])
              (λ layers. Ends-ok _)))
