-- ===== src/Evaluator/Eval.antt =====
-- evaluator.go: `evalRule`, `evalPassPercent`, `evalDelegate` and `eval`. The recursion of `eval`
-- is on fuel; `Evaluator.Eval.Depth` shows how much is enough.
pub mod Depth
pub mod Percentage
pub mod Decision
pub mod Cycle
pub mod Rules
pub mod Fuel
use Prim.Native.String.{◌++◌ as ◌<>◌}
use statsig_go_sdk.Prelude.{
  ℕ, zero, suc, ◌+◌, ◌%◌, String, Bool, true, ◌&&◌, ◌||◌, Option, none, some, List, [], ◌∷◌, ◌++◌,
  ◌==◌, ltb, if◌then◌else◌,
}
use statsig_go_sdk.Prelude.Int.{pos}
use statsig_go_sdk.Dict.{Dict, insert}
use statsig_go_sdk.Value.{Object}
use statsig_go_sdk.Runtime.{Runtime, to_lower}
use statsig_go_sdk.Types.{User, new_config}
use statsig_go_sdk.Spec.{ConfigCondition, ConfigRule, ConfigSpec}
use statsig_go_sdk.Store.State.{get_dynamic_config}
use statsig_go_sdk.Evaluator.UserFields.{get_unit_id}
use statsig_go_sdk.Evaluator.Result.{
  EvalResult, zero_result, Exposure, Outcome, ok, panic, out_of_fuel, depth_exceeded, ◌>>=◌,
}
use statsig_go_sdk.Evaluator.Condition.{
  Evaluator, get_hash_uint64_encoding, create_evaluation_details, eval_condition,
}

abbrev pub max_recursive_depth : ℕ
max_recursive_depth = 300

-- `explicitParams[s] = true` for each parameter.
unfoldable pub explicit_params : List String → Dict Bool → Dict Bool
explicit_params [] m = m
explicit_params (s ∷ ss) m = explicit_params ss (insert s true m)

-- The result of a delegate, in the name of the rule that delegates.
unfoldable pub delegated_result : ConfigRule → ConfigSpec → List Exposure → EvalResult → EvalResult
delegated_result rule config exposures result = record result {
  config_delegate = rule.config_delegate;
  secondary_exposures = exposures ++ result.secondary_exposures;
  undelegated_secondary_exposures = exposures;
  explicit_parameters = explicit_params config.explicit_parameters [];
}

module _ (r : Runtime) where
  -- `json.Unmarshal` into a fresh map, which an error leaves empty.
  unfoldable pub unmarshal : String → Option Object
  unmarshal raw = elim (r.unmarshal_object raw) [ none ↦ some [] | some m ↦ m ]

  abbrev pub is_dynamic_config : ConfigSpec → Bool
  is_dynamic_config spec = to_lower r spec.type == "dynamic_config"

  abbrev pub default_value : ConfigSpec → Option Object
  default_value spec = if is_dynamic_config spec then unmarshal spec.default_value else none

  abbrev pub rule_salt : ConfigRule → String
  rule_salt rule = if rule.salt == "" then rule.id else rule.salt

  -- The bucket of a unit, of ten thousand.
  unfoldable pub bucket : User → ConfigRule → ConfigSpec → ℕ
  bucket user rule spec =
      get_hash_uint64_encoding r
        (spec.salt <> "." <> rule_salt rule <> "." <> get_unit_id r user rule.id_type)
      % 10000

  -- `evalPassPercent`
  unfoldable pub eval_pass_percent : User → ConfigRule → ConfigSpec → Bool
  eval_pass_percent user rule spec =
      r.float_lt (r.float_of_int (pos (bucket user rule spec)))
        (r.float_mul rule.pass_percentage (r.float_of_int (pos 100)))

module _ (r : Runtime) (e : Evaluator) (user : User) where
  -- The result of a rule that passes and does not delegate.
  unfoldable pub rule_result : ConfigSpec → ConfigRule → List Exposure → EvalResult
  rule_result spec rule exposures =
      let pass = eval_pass_percent r user rule spec in
      let details = create_evaluation_details r e e.store.init_reason in
      if is_dynamic_config r spec
      then record zero_result {
        pass = pass;
        config_value =
            new_config spec.name
              (if pass then unmarshal r rule.return_value else default_value r spec) rule.id;
        id = rule.id;
        secondary_exposures = exposures;
        undelegated_secondary_exposures = exposures;
        evaluation_details = some details;
        is_experiment_group = rule.is_experiment_group;
      }
      else record zero_result {
        pass = pass;
        id = rule.id;
        secondary_exposures = exposures;
        evaluation_details = some details;
      }

  -- The result when no rule passes, or the spec is disabled.
  unfoldable pub default_result : ConfigSpec → String → List Exposure → EvalResult
  default_result spec default_rule_id exposures =
      if is_dynamic_config r spec
      then record zero_result {
        config_value = new_config spec.name (default_value r spec) default_rule_id;
        id = default_rule_id;
        secondary_exposures = exposures;
        undelegated_secondary_exposures = exposures;
        evaluation_details = some (create_evaluation_details r e e.store.init_reason);
      }
      else record zero_result { id = default_rule_id; secondary_exposures = exposures }

  module _ (rec : ConfigSpec → ℕ → Outcome EvalResult) where
    -- The loop of `evalRule` over its conditions.
    unfoldable pub eval_conditions : List ConfigCondition → EvalResult → ℕ → Outcome EvalResult
    eval_conditions [] final depth = ok final
    eval_conditions (cond ∷ conds) final depth =
        eval_condition r e user rec cond (depth + 1) >>= λ res.
        eval_conditions conds
          (record final {
            pass = final.pass && res.pass;
            fetch_from_server = final.fetch_from_server || res.fetch_from_server;
            secondary_exposures = final.secondary_exposures ++ res.secondary_exposures;
          })
          depth

    -- `evalRule`
    unfoldable pub eval_rule : ConfigRule → ℕ → Outcome EvalResult
    eval_rule rule depth =
        eval_conditions rule.conditions (record zero_result { pass = true }) depth

    -- `evalDelegate`: `none` is the nil that it returns when there is no delegate.
    abbrev delegate :
        Option ConfigSpec → ConfigRule → List Exposure → ℕ → Outcome (Option EvalResult)
    delegate none rule exposures depth = ok none
    delegate (some config) rule exposures depth = rec config (depth + 1) >>= λ result.
        ok (some (delegated_result rule config exposures result))

    unfoldable pub eval_delegate : ConfigRule → List Exposure → ℕ → Outcome (Option EvalResult)
    eval_delegate rule exposures depth =
        delegate (get_dynamic_config e.store rule.config_delegate) rule exposures depth

    abbrev pub or_rule_result :
        ConfigSpec → ConfigRule → List Exposure → Option EvalResult → Outcome EvalResult
    or_rule_result spec rule exposures none = ok (rule_result spec rule exposures)
    or_rule_result spec rule exposures (some result) = ok result

    -- A rule that passes ends the loop.
    unfoldable pub passed : ConfigSpec → ConfigRule → List Exposure → ℕ → Outcome EvalResult
    passed spec rule exposures depth =
        eval_delegate rule exposures (depth + 1) >>= or_rule_result spec rule exposures

    -- The loop of `eval` over the rules.
    unfoldable pub eval_rules :
        ConfigSpec → List ConfigRule → List Exposure → ℕ → Outcome EvalResult
    eval_rules spec [] exposures depth = ok (default_result spec "default" exposures)
    eval_rules spec (rule ∷ rules) exposures depth = eval_rule rule (depth + 1) >>= λ res.
        let all_exposures = exposures ++ res.secondary_exposures in
        let rest = eval_rules spec rules all_exposures depth in
        if res.fetch_from_server
        then ok res
        else if res.pass
        then passed spec rule all_exposures depth
        else rest

    -- The body of `eval`.
    unfoldable pub eval_body : ConfigSpec → ℕ → Outcome EvalResult
    eval_body spec depth =
        if ltb max_recursive_depth depth
        then panic depth_exceeded
        else if spec.enabled
        then eval_rules spec spec.rules [] depth
        else ok (default_result spec "disabled" [])

  -- `eval`
  unfoldable pub eval : ℕ → ConfigSpec → ℕ → Outcome EvalResult
  eval zero spec depth = out_of_fuel
  eval (suc n) spec depth = eval_body (eval n) spec depth
