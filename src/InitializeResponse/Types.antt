-- ===== src/InitializeResponse/Types.antt =====
-- client_initialize_response.go: the response. A nil map or slice and an empty one are not told
-- apart in it.
use statsig_go_sdk.Prelude.{String, Bool, Option, List}
use statsig_go_sdk.Dict.{Dict}
use statsig_go_sdk.Value.{Object}
use statsig_go_sdk.Evaluator.Result.{Exposure}

pub record BaseResponse : Type 0 where
  pub name : String
  pub rule_id : String
  pub secondary_exposures : List Exposure

pub record GateResponse : Type 0 where
  pub base : BaseResponse
  pub value : Bool

pub record ConfigResponse : Type 0 where
  pub base : BaseResponse
  pub value : Object
  pub group : String
  pub is_device_based : Bool
  pub is_experiment_active : Option Bool
  pub is_user_in_experiment : Option Bool
  pub is_in_layer : Option Bool
  pub explicit_parameters : Option (List String)

pub record LayerResponse : Type 0 where
  pub base : BaseResponse
  pub value : Object
  pub group : String
  pub is_device_based : Bool
  pub is_experiment_active : Option Bool
  pub is_user_in_experiment : Option Bool
  pub explicit_parameters : Option (List String)
  pub allocated_experiment_name : String
  pub undelegated_secondary_exposures : List Exposure

-- `ClientInitializeResponse`; the fields that are constant are left out.
pub record InitializeResponse : Type 0 where
  pub feature_gates : Dict GateResponse
  pub dynamic_configs : Dict ConfigResponse
  pub layer_configs : Dict LayerResponse
  pub user_id : String
  pub custom_ids : Dict String
