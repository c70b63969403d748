-- ===== src/Types.antt =====
-- types.go: the user, the event, and the configuration that a caller reads. A logging callback is
-- the list of the parameters that it was called with.
pub mod Getters
pub mod Kinds
use statsig_go_sdk.Prelude.{ℕ, String, Bool, true, false, Option, none, some, List, [], ◌∷◌}
use statsig_go_sdk.Prelude.Int.{ℤ}
use statsig_go_sdk.Dict.{Dict}
use statsig_go_sdk.Value.{Object}

pub record User : Type 0 where
  pub user_id : String
  pub email : String
  pub ip_address : String
  pub user_agent : String
  pub country : String
  pub locale : String
  pub app_version : String
  pub custom : Object
  pub private_attributes : Object
  pub statsig_environment : Dict String
  pub custom_ids : Dict String

pub record Event : Type 0 where
  pub event_name : String
  pub user : User
  pub value : String
  pub metadata : Dict String
  pub time : ℤ

-- `configBase`, which `DynamicConfig` and `Layer` embed. `has_log_exposure` says whether the
-- pointer `LogExposure` is set.
pub record ConfigBase : Type 0 where
  pub name : String
  pub value : Object
  pub rule_id : String
  pub has_log_exposure : Bool

-- A nil map is replaced by an empty one.
abbrev pub non_nil : Option Object → Object
non_nil none = []
non_nil (some m) = m

unfoldable pub new_config : String → Option Object → String → ConfigBase
new_config name value rule_id = record {
  name = name;
  value = non_nil value;
  rule_id = rule_id;
  has_log_exposure = false;
}

unfoldable pub new_layer : String → Option Object → String → Bool → ConfigBase
new_layer name value rule_id log_exposure = record {
  name = name;
  value = non_nil value;
  rule_id = rule_id;
  has_log_exposure = log_exposure;
}

-- The zero value of `DynamicConfig`.
abbrev pub zero_config : ConfigBase
zero_config = record { name = ""; value = []; rule_id = ""; has_log_exposure = false }

abbrev pub empty_user : User
empty_user = record {
  user_id = "";
  email = "";
  ip_address = "";
  user_agent = "";
  country = "";
  locale = "";
  app_version = "";
  custom = [];
  private_attributes = [];
  statsig_environment = [];
  custom_ids = [];
}
