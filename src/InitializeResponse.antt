-- ===== src/InitializeResponse.antt =====
-- client_initialize_response.go: all evaluated values for a user, as a client SDK is given them.
pub mod Types
pub mod Exposures
pub mod Gates
pub mod Ending
use statsig_go_sdk.Prelude.{
  ℕ, String, Bool, true, false, not, ◌&&◌, ◌||◌, Option, none, some, List, [], ◌∷◌, ◌==◌, is_some,
  or_default, if◌then◌else◌,
}
use Prim.Native.String.{◌++◌ as ◌<>◌}
use statsig_go_sdk.Prelude.Int.{ℤ, pos}
use statsig_go_sdk.Dict.{Dict, lookup, insert, merge}
use statsig_go_sdk.Value.{Object}
use statsig_go_sdk.Runtime.{Runtime, to_lower}
use statsig_go_sdk.Types.{User, non_nil}
use statsig_go_sdk.Spec.{ConfigSpec, has_target_app_id}
use statsig_go_sdk.Store.State.{
  Store, get_dynamic_config, get_layer_config, get_experiment_layer, get_app_id_for_sdk_key,
}
use statsig_go_sdk.Evaluator.Result.{EvalResult, Exposure, Outcome, ok, panic, nil_map, ◌>>=◌}
use statsig_go_sdk.Evaluator.Condition.{Evaluator}
use statsig_go_sdk.Evaluator.Eval.{eval, unmarshal}
use statsig_go_sdk.Evaluator.Api.{eval_fuel}
use statsig_go_sdk.InitializeResponse.Types.{
  BaseResponse, GateResponse, ConfigResponse, LayerResponse, InitializeResponse,
}

abbrev pub text_at : String → Exposure → String
text_at key exposure = or_default (lookup key exposure) ""

-- `fmt.Sprintf("%s|%s|%s", …)`
abbrev pub exposure_key : Exposure → String
exposure_key exposure =
    text_at "gate" exposure
    <> "|"
    <> text_at "gateValue" exposure
    <> "|"
    <> text_at "ruleID" exposure

abbrev pub is_key_of : String → List String → Bool
is_key_of key [] = false
is_key_of key (k ∷ ks) = k == key || is_key_of key ks

-- The loop of `cleanExposures`, with the keys of `seen`.
unfoldable pub clean_from : List String → List Exposure → List Exposure
clean_from seen [] = []
clean_from seen (exposure ∷ exposures) =
    let kept = clean_from (exposure_key exposure ∷ seen) exposures in
    let rest = clean_from seen exposures in
    if is_key_of (exposure_key exposure) seen then rest else exposure ∷ kept

-- `cleanExposures`
unfoldable pub clean_exposures : List Exposure → List Exposure
unfolding clean_from
clean_exposures exposures = clean_from [] exposures

-- `mergeMaps`: an assignment to a nil map panics.
unfoldable pub merge_maps : Option Object → Object → Outcome (Option Object)
merge_maps (some a) b = ok (some (merge a b))
merge_maps none [] = ok none
merge_maps none (entry ∷ rest) = panic nil_map

-- `p != nil && *p`
abbrev pub is_true : Option Bool → Bool
is_true p = or_default p false

-- The zero value of `configSpec`.
abbrev pub zero_spec : ConfigSpec
zero_spec = record {
  name = "";
  type = "";
  salt = "";
  enabled = false;
  rules = [];
  default_value = "";
  id_type = "";
  explicit_parameters = [];
  entity = "";
  is_active = none;
  has_shared_params = none;
  target_app_ids = [];
}

-- `getHashBase64StringEncoding`
abbrev pub hashed : Runtime → String → String
hashed r name = r.base64 (r.sha256 name)

module _ (r : Runtime) (e : Evaluator) (user : User) where
  -- `evalFunc(user, spec, 0)`
  abbrev pub eval_func : ConfigSpec → Outcome EvalResult
  eval_func spec = eval r e user eval_fuel spec 0

  -- `evalResultToBaseResponse`
  abbrev pub base_response : String → EvalResult → BaseResponse
  base_response name res = record {
    name = hashed r name;
    rule_id = res.id;
    secondary_exposures = clean_exposures res.secondary_exposures;
  }

  -- `gateToResponse`
  unfoldable pub gate_to_response : String → ConfigSpec → Outcome GateResponse
  gate_to_response name spec =
      eval_func spec >>= λ res. ok (record { base = base_response name res; value = res.pass })

  -- A config that shares parameters has the values of its layer, under its own.
  abbrev pub in_layer : ConfigSpec → ConfigResponse → Outcome ConfigResponse
  in_layer spec result =
      let shared = record result {
        is_in_layer = some true;
        explicit_parameters = some spec.explicit_parameters;
      } in
      let layer_name = or_default (get_experiment_layer e.store spec.name) "" in
      elim (get_layer_config e.store layer_name) [
        | none ↦ ok shared
        | some layer ↦ merge_maps (unmarshal r layer.default_value) result.value >>= λ value.
            ok (record shared { value = non_nil value })
      ]

  abbrev pub as_experiment : ConfigSpec → EvalResult → ConfigResponse → Outcome ConfigResponse
  as_experiment spec res result =
      let experiment = record result {
        is_user_in_experiment = some (is_true res.is_experiment_group);
        is_experiment_active = some (is_true spec.is_active);
      } in
      if is_true spec.has_shared_params then in_layer spec experiment else ok experiment

  abbrev pub plain_config : String → ConfigSpec → EvalResult → ConfigResponse
  plain_config name spec res = record {
    base = base_response name res;
    value = res.config_value.value;
    group = res.id;
    is_device_based = to_lower r spec.id_type == "stableid";
    is_experiment_active = none;
    is_user_in_experiment = none;
    is_in_layer = none;
    explicit_parameters = none;
  }

  -- `configToResponse`
  unfoldable pub config_to_response : String → ConfigSpec → Outcome ConfigResponse
  unfolding merge_maps
  config_to_response name spec = eval_func spec >>= λ res.
      if to_lower r spec.entity == "experiment"
      then as_experiment spec res (plain_config name spec res)
      else ok (plain_config name spec res)

  -- What a delegate adds to the response of a layer; the delegate is evaluated even if it is
  -- unknown, as the zero spec.
  abbrev pub with_delegate : String → LayerResponse → Outcome LayerResponse
  with_delegate delegate result =
      let found = get_dynamic_config e.store delegate in
      let spec = or_default found zero_spec in
      eval_func spec >>= λ res. ok (
        if is_some found
        then record result {
          allocated_experiment_name = hashed r delegate;
          is_user_in_experiment = some (is_true res.is_experiment_group);
          is_experiment_active = some (is_true spec.is_active);
          explicit_parameters = elim spec.explicit_parameters [
            | [] ↦ result.explicit_parameters
            | p ∷ ps ↦ some (p ∷ ps)
          ];
        }
        else result)

  abbrev pub plain_layer : String → ConfigSpec → EvalResult → LayerResponse
  plain_layer name spec res = record {
    base = base_response name res;
    value = res.config_value.value;
    group = res.id;
    is_device_based = to_lower r spec.id_type == "stableid";
    is_experiment_active = none;
    is_user_in_experiment = none;
    explicit_parameters = some spec.explicit_parameters;
    allocated_experiment_name = "";
    undelegated_secondary_exposures = clean_exposures res.undelegated_secondary_exposures;
  }

  -- `layerToResponse`
  unfoldable pub layer_to_response : String → ConfigSpec → Outcome LayerResponse
  layer_to_response name spec = eval_func spec >>= λ res.
      if res.config_delegate == ""
      then ok (plain_layer name spec res)
      else with_delegate res.config_delegate (plain_layer name spec res)

  module _ {A : Type 0} (is_sent : ConfigSpec → Bool)
      (to_response : String → ConfigSpec → Outcome A) where
    -- A loop over the specs of one kind: `m[hashedName] = res` for those that are sent.
    unfoldable pub responses : Dict ConfigSpec → Dict A → Outcome (Dict A)
    responses [] m = ok m
    responses (entry ∷ specs) m =
        let skipped = responses specs m in
        if is_sent entry.1
        then (to_response entry.0 entry.1 >>= λ res.
            responses specs (insert (hashed r entry.0) res m))
        else skipped

  module _ (app_id : String) where
    -- Segments and holdouts are not sent.
    abbrev pub is_sent_gate : ConfigSpec → Bool
    is_sent_gate spec =
        let entity_type = to_lower r spec.entity in
        has_target_app_id spec app_id
        && (not (entity_type == "segment") && not (entity_type == "holdout"))

    abbrev pub is_sent_config : ConfigSpec → Bool
    is_sent_config spec = has_target_app_id spec app_id

  -- `getClientInitializeResponse`
  unfoldable pub get_client_initialize_response : String → Outcome InitializeResponse
  unfolding responses gate_to_response config_to_response layer_to_response
  get_client_initialize_response client_key =
      let app_id = or_default (get_app_id_for_sdk_key e.store client_key) "" in
      responses (is_sent_gate app_id) gate_to_response e.store.feature_gates [] >>= λ gates.
      responses (is_sent_config app_id) config_to_response e.store.dynamic_configs [] >>= λ configs.
      responses (is_sent_config app_id) layer_to_response e.store.layer_configs [] >>= λ layers.
      ok (record {
        feature_gates = gates;
        dynamic_configs = configs;
        layer_configs = layers;
        user_id = user.user_id;
        custom_ids = user.custom_ids;
      })
