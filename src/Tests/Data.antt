-- ===== src/Tests/Data.antt =====
-- A runtime that computes, and a small project: a float is the number in its bits, and the hash of
-- a text is the text.
use statsig_go_sdk.Prelude.{
  ℕ, ◌*◌, String, refl, true, false, none, some, List, [], ◌∷◌, ltb, nat_eq, if◌then◌else◌,
}
use statsig_go_sdk.Prelude.Int.{ℤ, pos, negsuc}
use statsig_go_sdk.Text.{codes}
use statsig_go_sdk.Value.{Float64, string}
use statsig_go_sdk.Runtime.{Runtime, UserAgentClient, Time}
use statsig_go_sdk.Types.{User, empty_user}
use statsig_go_sdk.Spec.{ConfigCondition, ConfigRule, ConfigSpec}
use statsig_go_sdk.Store.State.{Store, empty_store, network}
use statsig_go_sdk.Evaluator.Condition.{Evaluator}
use statsig_go_sdk.Evaluator.Eval.Percentage.{HasExactIntegers}

abbrev pub float_of : ℤ → Float64
float_of (pos n) = record { bits = n }
float_of (negsuc n) = record { bits = 0 }

abbrev pub agent : UserAgentClient
agent = record {
  os_family = "Linux";
  os_major = "6";
  os_minor = "";
  os_patch = "1";
  os_patch_minor = "";
  browser_family = "Lynx";
  browser_major = "2";
  browser_minor = "9";
  browser_patch = "";
}

abbrev pub noon : Time
noon = record { seconds = pos 1700000000; nanos = 0; offset = pos 0 }

abbrev pub test_runtime : Runtime
test_runtime = record {
  lower_rune = λ c. c;
  sha256 = codes;
  base64 =
      λ bytes. elim bytes [ [] ↦ "" | n ∷ ns ↦ if nat_eq n b'o' then "b3Blbg==" else "c2h1dA==" ];
  float_lt = λ x y. ltb x.bits y.bits;
  float_eq = λ x y. nat_eq x.bits y.bits;
  float_mul = λ x y. record { bits = x.bits * y.bits };
  float_of_int = float_of;
  float_of_float32 = λ n. record { bits = n };
  float_to_int64 = λ x. pos x.bits;
  parse_float = λ s. none;
  format_value = λ v. "?";
  format_text = λ v. "?";
  match_regexp = λ pattern s. false;
  parse_rfc3339 = λ s. none;
  local_offset = λ s. pos 0;
  date = λ t. record { year = pos 2023; month = 11; day = 14 };
  unmarshal_object = λ raw. none;
  unmarshal_specs = λ raw. none;
  marshal_specs = λ specs. none;
  lookup_ip = λ ip. some "NZ";
  parse_user_agent = λ ua. agent;
  now = noon;
  now_milli = pos 1700000000000;
}

pub test_runtime-HasExactIntegers : HasExactIntegers test_runtime
test_runtime-HasExactIntegers = record { lt_exact = λ n m p q. refl; mul_exact = λ n m p. refl }

abbrev pub ada : User
ada = record empty_user { user_id = "ada" }

abbrev pub gate_condition : String → String → ConfigCondition
gate_condition type gate = record {
  type = type;
  operator = "";
  field = "";
  target_value = string gate;
  additional_values = [];
  id_type = "userID";
}

abbrev pub public_condition : ConfigCondition
public_condition = gate_condition "public" ""

abbrev pub whole_rule : String → ℕ → List ConfigCondition → ConfigRule
whole_rule id percentage conditions = record {
  name = id;
  id = id;
  salt = "";
  pass_percentage = record { bits = percentage };
  conditions = conditions;
  return_value = "";
  id_type = "userID";
  config_delegate = "";
  is_experiment_group = none;
}

abbrev pub gate_spec : String → List ConfigRule → ConfigSpec
gate_spec name rules = record {
  name = name;
  type = "feature_gate";
  salt = "salt";
  enabled = true;
  rules = rules;
  default_value = "";
  id_type = "userID";
  explicit_parameters = [];
  entity = "feature_gate";
  is_active = none;
  has_shared_params = none;
  target_app_ids = [];
}

-- "open" passes everybody, "shut" fails everybody, "shut_twice" asks for "shut", and "loop" asks
-- for itself.
abbrev pub open_gate : ConfigSpec
open_gate = gate_spec "open" (whole_rule "everyone" 100 (public_condition ∷ []) ∷ [])

abbrev pub shut_gate : ConfigSpec
shut_gate = gate_spec "shut" (whole_rule "nobody" 0 (public_condition ∷ []) ∷ [])

abbrev pub shut_twice_gate : ConfigSpec
shut_twice_gate =
    gate_spec "shut_twice" (whole_rule "if_shut" 100 (gate_condition "pass_gate" "shut" ∷ []) ∷ [])

abbrev pub loop_gate : ConfigSpec
loop_gate = gate_spec "loop" (whole_rule "again" 100 (gate_condition "pass_gate" "loop" ∷ []) ∷ [])

abbrev pub project : Store
project = record empty_store {
  feature_gates =
      ("open", open_gate)
      ∷ ("shut", shut_gate)
      ∷ ("shut_twice", shut_twice_gate)
      ∷ ("loop", loop_gate)
      ∷ [];
  init_reason = network;
  last_sync_time = pos 7;
}

abbrev pub evaluator : Evaluator
evaluator = record {
  store = project;
  gate_overrides = [];
  config_overrides = [];
  layer_overrides = [];
}
