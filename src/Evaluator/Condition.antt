-- ===== src/Evaluator/Condition.antt =====
-- evaluator.go: `evaluator`, `evalGate` and `evalCondition`. The recursive call of `eval` is the
-- parameter `rec`; `Evaluator.Eval` ties the knot.
pub mod Laws
use Prim.Native.String.{◌++◌ as ◌<>◌}
use mathlib.Core.List.{foldl}
use statsig_go_sdk.Prelude.{
  ℕ, ◌+◌, ◌*◌, ◌%◌, String, Bool, true, false, not, Option, none, some, List, [], ◌∷◌, ◌++◌, ◌==◌,
  take, if◌then◌else◌,
}
use statsig_go_sdk.Prelude.Int.{pos}
use statsig_go_sdk.Dict.{Dict, lookup}
use statsig_go_sdk.Value.{Value, nil, string, int64, Object, is_empty}
use statsig_go_sdk.Runtime.{Runtime, to_lower}
use statsig_go_sdk.Types.{User}
use statsig_go_sdk.Spec.{ConfigCondition, ConfigSpec}
use statsig_go_sdk.Store.State.{
  EvaluationReason, local_override, unrecognized, EvaluationDetails, new_evaluation_details, Store,
  get_gate,
}
use statsig_go_sdk.Evaluator.UserFields.{
  get_unit_id, get_from_user, get_from_environment, get_from_user_agent, get_from_ip,
}
use statsig_go_sdk.Evaluator.Result.{EvalResult, zero_result, Exposure, Outcome, ok, deref, ◌>>=◌}
use statsig_go_sdk.Evaluator.Operator.{Verdict, run_operator}

-- `evaluator`, without the two lookup packages, which are in `Runtime`.
pub record Evaluator : Type 0 where
  pub store : Store
  pub gate_overrides : Dict Bool
  pub config_overrides : Dict Object
  pub layer_overrides : Dict Object

-- `binary.BigEndian.Uint64` of eight bytes.
unfoldable pub big_endian : List ℕ → ℕ
big_endian = foldl (λ n b. n * 256 + b) 0

-- `getHashUint64Encoding`
unfoldable pub get_hash_uint64_encoding : Runtime → String → ℕ
get_hash_uint64_encoding r key = big_endian (take 8 (r.sha256 key))

-- `strconv.FormatBool`
abbrev pub format_bool : Bool → String
format_bool true = "true"
format_bool false = "false"

-- `evalCondition` has decided, or leaves the decision to the server.
abbrev pub condition_result : Bool → Bool → EvalResult
condition_result pass server = record zero_result { pass = pass; fetch_from_server = server }

abbrev pub gate_exposure : String → EvalResult → Exposure
gate_exposure gate_name result =
    ("gate", gate_name) ∷ ("gateValue", format_bool result.pass) ∷ ("ruleID", result.id) ∷ []

-- What an operator's verdict makes of the condition.
abbrev pub verdict_result : Verdict → Outcome EvalResult
verdict_result verdict = deref verdict >>= λ (pass, server). ok (condition_result pass server)

module _ (r : Runtime) (e : Evaluator) where
  -- `createEvaluationDetails`
  unfoldable pub create_evaluation_details : EvaluationReason → EvaluationDetails
  create_evaluation_details reason =
      new_evaluation_details r reason e.store.last_sync_time e.store.initial_sync_time

  -- `emptyEvalResult`
  abbrev pub unrecognized_result : EvalResult
  unrecognized_result = record zero_result {
    evaluation_details = some (create_evaluation_details unrecognized);
  }

  abbrev pub gate_override_result : Bool → EvalResult
  gate_override_result value = record zero_result {
    pass = value;
    id = "override";
    evaluation_details = some (create_evaluation_details local_override);
  }

  module _ (user : User) where
    abbrev pub salted_bucket : Option Value → String → Value
    salted_bucket none unit = nil
    salted_bucket (some (string salt)) unit =
        int64 (pos (get_hash_uint64_encoding r (salt <> "." <> unit) % 1000))
    salted_bucket (some salt) unit =
        int64 (pos (get_hash_uint64_encoding r (r.format_text salt <> "." <> unit) % 1000))

    -- A value of the user, or what is derived from the request.
    abbrev or_derived : Value → String → Value
    or_derived value derived = if is_empty value then string derived else value

    -- The switch over the type of the condition: the value to test, or `none` for `default`.
    unfoldable pub condition_value : ConfigCondition → String → Option Value
    condition_value cond cond_type =
        if cond_type == "ip_based"
        then some (or_derived (get_from_user r user cond.field) (get_from_ip r user cond.field))
        else if cond_type == "ua_based"
        then some
            (or_derived (get_from_user r user cond.field) (get_from_user_agent r user cond.field))
        else if cond_type == "user_field"
        then some (get_from_user r user cond.field)
        else if cond_type == "environment_field"
        then some (string (get_from_environment r user cond.field))
        else if cond_type == "current_time"
        then some (int64 r.now.seconds)
        else if cond_type == "user_bucket"
        then some
            (salted_bucket (lookup "salt" cond.additional_values) (get_unit_id r user cond.id_type))
        else if cond_type == "unit_id"
        then some (string (get_unit_id r user cond.id_type))
        else none

    -- `evalGate`
    module _ (rec : ConfigSpec → ℕ → Outcome EvalResult) where
      abbrev evaluated : Option ConfigSpec → ℕ → Outcome EvalResult
      evaluated none depth = ok unrecognized_result
      evaluated (some spec) depth = rec spec (depth + 1)

      abbrev gate_or_override : Option Bool → String → ℕ → Outcome EvalResult
      gate_or_override (some value) gate_name depth = ok (gate_override_result value)
      gate_or_override none gate_name depth = evaluated (get_gate e.store gate_name) depth

      unfoldable pub eval_gate : String → ℕ → Outcome EvalResult
      eval_gate gate_name depth =
          gate_or_override (lookup gate_name e.gate_overrides) gate_name depth

      -- The answer of a `pass_gate` or `fail_gate` condition from the gate's result.
      abbrev pub dependent_result : Bool → String → EvalResult → EvalResult
      dependent_result passes gate_name result =
          if result.fetch_from_server then condition_result false true else record zero_result {
            pass = if passes then result.pass else not result.pass;
            secondary_exposures = result.secondary_exposures ++ gate_exposure gate_name result ∷ [];
          }

      unfoldable pub eval_gate_condition : Bool → Value → ℕ → Outcome EvalResult
      eval_gate_condition passes (string gate_name) depth =
          eval_gate gate_name (depth + 1) >>= λ result.
          ok (dependent_result passes gate_name result)
      eval_gate_condition passes _ depth = ok (condition_result false false)

      abbrev pub test_value : ConfigCondition → Option Value → Outcome EvalResult
      test_value cond none = ok (condition_result false true)
      test_value cond (some value) =
          verdict_result (run_operator r e.store (to_lower r cond.operator) value cond.target_value)

      -- `evalCondition`
      unfoldable pub eval_condition : ConfigCondition → ℕ → Outcome EvalResult
      eval_condition cond depth =
          let cond_type = to_lower r cond.type in
          if cond_type == "public"
          then ok (condition_result true false)
          else if cond_type == "fail_gate"
          then eval_gate_condition false cond.target_value depth
          else if cond_type == "pass_gate"
          then eval_gate_condition true cond.target_value depth
          else test_value cond (condition_value cond cond_type)
