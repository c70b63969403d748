-- ===== src/Spec.antt =====
-- store.go: the specifications of gates, configs and layers, as the server sends them.
use statsig_go_sdk.Prelude.{
  String, Bool, true, false, ◌||◌, Option, List, [], ◌∷◌, ◌==◌, if◌then◌else◌,
}
use statsig_go_sdk.Prelude.Int.{ℤ}
use statsig_go_sdk.Dict.{Dict}
use statsig_go_sdk.Value.{Float64, Value, Object}

pub record ConfigCondition : Type 0 where
  pub type : String
  pub operator : String
  pub field : String
  pub target_value : Value
  pub additional_values : Object
  pub id_type : String

-- `ReturnValue` is raw JSON.
pub record ConfigRule : Type 0 where
  pub name : String
  pub id : String
  pub salt : String
  pub pass_percentage : Float64
  pub conditions : List ConfigCondition
  pub return_value : String
  pub id_type : String
  pub config_delegate : String
  pub is_experiment_group : Option Bool

pub record ConfigSpec : Type 0 where
  pub name : String
  pub type : String
  pub salt : String
  pub enabled : Bool
  pub rules : List ConfigRule
  pub default_value : String
  pub id_type : String
  pub explicit_parameters : List String
  pub entity : String
  pub is_active : Option Bool
  pub has_shared_params : Option Bool
  pub target_app_ids : List String

-- The loop of `hasTargetAppID`.
unfoldable pub lists_app : List String → String → Bool
lists_app [] app_id = false
lists_app (e ∷ es) app_id = e == app_id || lists_app es app_id

unfoldable pub has_target_app_id : ConfigSpec → String → Bool
unfolding lists_app
has_target_app_id c app_id = if app_id == "" then true else lists_app c.target_app_ids app_id

pub record DownloadConfigSpecResponse : Type 0 where
  pub has_updates : Bool
  pub time : ℤ
  pub feature_gates : List ConfigSpec
  pub dynamic_configs : List ConfigSpec
  pub layer_configs : List ConfigSpec
  pub layers : Dict (List String)
  pub id_lists : Dict Bool
  pub diagnostics_sample_rates : Dict ℤ
  pub sdk_keys_to_app_id : Dict String
