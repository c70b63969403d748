-- ===== src/Evaluator/Eval/Depth.antt =====
-- The recursion of `eval` ends: the code's own limit on the depth cuts it before the fuel does.
use statsig_go_sdk.Prelude.{
  ℕ, zero, suc, ◌+◌, ◌≤◌, ◌<◌, String, inl, inr, Bool, true, false, Option, none, some, List, [],
  ◌∷◌, ◌++◌, arith, ltb, Bool-cases, ltb-ge, Option-cases,
}
use statsig_go_sdk.Dict.{lookup}
use statsig_go_sdk.Value.{Value, string}
use statsig_go_sdk.Runtime.{Runtime, to_lower}
use statsig_go_sdk.Types.{User}
use statsig_go_sdk.Spec.{ConfigCondition, ConfigRule, ConfigSpec}
use statsig_go_sdk.Store.State.{get_gate, get_dynamic_config}
use statsig_go_sdk.Evaluator.Result.{
  EvalResult, Exposure, Outcome, Ends, Ends->>=, Ends-if, Ends-deref, Ends-ok, deref,
}
use statsig_go_sdk.Evaluator.Operator.{run_operator}
use statsig_go_sdk.Evaluator.Condition.{
  Evaluator, condition_value, eval_gate, eval_gate_condition, test_value, eval_condition,
  condition_result,
}
use statsig_go_sdk.Evaluator.Eval.{
  max_recursive_depth, eval_conditions, eval_rule, eval_delegate, or_rule_result, passed,
  eval_rules, eval_body, eval, default_result,
}

module _ (r : Runtime) (e : Evaluator) (user : User) (rec : ConfigSpec → ℕ → Outcome EvalResult)
    (bound : ℕ) (ends : (spec : ConfigSpec) (d : ℕ) → bound < d → Ends (rec spec d)) where
  eval_gate-Ends : (name : String) (d : ℕ) → bound ≤ d → Ends (eval_gate r e user rec name d)
  unfolding eval_gate
  eval_gate-Ends name d h = elim (Option-cases (lookup name e.gate_overrides)) [
    | inr (value, over) ↦ rw over (λ q. cc)
    | inl plain ↦ elim (Option-cases (get_gate e.store name)) [
      | inl missing ↦ rw (plain, missing) (λ q. cc)
      | inr (spec, found) ↦ rw (plain, found) (ends spec (d + 1) (omega arith))
    ]
  ]

  eval_gate_condition-Ends :
      (passes : Bool) (target : Value) (d : ℕ)
      → bound ≤ d
      → Ends (eval_gate_condition r e user rec passes target d)
  unfolding eval_gate_condition
  eval_gate_condition-Ends passes (string name) d h =
      Ends->>= (eval_gate r e user rec name (d + 1)) _ (eval_gate-Ends name (d + 1) (omega arith))
        (λ result q. cc)
  eval_gate_condition-Ends passes _ d h = λ q. cc

  test_value-Ends :
      (cond : ConfigCondition) (value : Option Value) → Ends (test_value r e user rec cond value)
  test_value-Ends cond none = λ q. cc
  test_value-Ends cond (some value) =
      Ends->>= (deref (run_operator r e.store (to_lower r cond.operator) value cond.target_value)) _
        (Ends-deref (run_operator r e.store (to_lower r cond.operator) value cond.target_value))
        (λ (pass, server) q. cc)

  eval_condition-Ends :
      (cond : ConfigCondition) (d : ℕ) → bound ≤ d → Ends (eval_condition r e user rec cond d)
  unfolding eval_condition
  eval_condition-Ends cond d h = Ends-if _ (Ends-ok (condition_result true false)) (
      Ends-if _ (eval_gate_condition-Ends false cond.target_value d h) (
        Ends-if _ (eval_gate_condition-Ends true cond.target_value d h)
          (test_value-Ends cond (condition_value r e user cond (to_lower r cond.type)))))

  eval_conditions-Ends :
      (conds : List ConfigCondition) (final : EvalResult) (d : ℕ)
      → bound ≤ d
      → Ends (eval_conditions r e user rec conds final d)
  unfolding eval_conditions
  eval_conditions-Ends [] final d h = λ q. cc
  eval_conditions-Ends (cond ∷ conds) final d h =
      Ends->>= (eval_condition r e user rec cond (d + 1)) _
        (eval_condition-Ends cond (d + 1) (omega arith)) (λ res. eval_conditions-Ends conds _ d h)

  eval_delegate-Ends :
      (rule : ConfigRule) (exposures : List Exposure) (d : ℕ)
      → bound ≤ d
      → Ends (eval_delegate r e user rec rule exposures d)
  unfolding eval_delegate
  eval_delegate-Ends rule exposures d h =
      elim (Option-cases (get_dynamic_config e.store rule.config_delegate)) [
        | inl missing ↦ rw missing (λ q. cc)
        | inr (config, found) ↦
            rw found
              (Ends->>= (rec config (d + 1)) _ (ends config (d + 1) (omega arith)) (λ result q. cc))
      ]

  or_rule_result-Ends :
      (spec : ConfigSpec) (rule : ConfigRule) (exposures : List Exposure)
      (delegated : Option EvalResult)
      → Ends (or_rule_result r e user rec spec rule exposures delegated)
  or_rule_result-Ends spec rule exposures none = λ q. cc
  or_rule_result-Ends spec rule exposures (some result) = λ q. cc

  passed-Ends :
      (spec : ConfigSpec) (rule : ConfigRule) (exposures : List Exposure) (d : ℕ)
      → bound ≤ d
      → Ends (passed r e user rec spec rule exposures d)
  unfolding passed
  passed-Ends spec rule exposures d h =
      Ends->>= (eval_delegate r e user rec rule exposures (d + 1)) _
        (eval_delegate-Ends rule exposures (d + 1) (omega arith))
        (λ delegated. or_rule_result-Ends spec rule exposures delegated)

  eval_rules-Ends :
      (spec : ConfigSpec) (rules : List ConfigRule) (exposures : List Exposure) (d : ℕ)
      → bound ≤ d
      → Ends (eval_rules r e user rec spec rules exposures d)
  unfolding eval_rules eval_rule
  eval_rules-Ends spec [] exposures d h = λ q. cc
  eval_rules-Ends spec (rule ∷ rules) exposures d h =
      Ends->>= (eval_rule r e user rec rule (d + 1)) _
        (eval_conditions-Ends rule.conditions _ (d + 1) (omega arith))
        (λ res.
          Ends-if res.fetch_from_server (λ q. cc)
            (Ends-if res.pass (passed-Ends spec rule (exposures ++ res.secondary_exposures) d h)
              (eval_rules-Ends spec rules (exposures ++ res.secondary_exposures) d h)))

-- With enough fuel for the depths that are left, the body of `eval` ends.
eval_body-Ends :
    (r : Runtime) (e : Evaluator) (user : User) (rec : ConfigSpec → ℕ → Outcome EvalResult)
    (spec : ConfigSpec) (d : ℕ)
    → (d ≤ max_recursive_depth → (other : ConfigSpec) (d' : ℕ) → d < d' → Ends (rec other d'))
    → Ends (eval_body r e user rec spec d)
unfolding eval_body
eval_body-Ends r e user rec spec d ends = elim (Bool-cases (ltb max_recursive_depth d)) [
  | inl deep ↦ rw deep (λ q. cc)
  | inr fits ↦ rw fits (
      Ends-if spec.enabled
        (eval_rules-Ends r e user rec d (ends (ltb-ge max_recursive_depth d fits)) spec spec.rules
          [] d (omega arith))
        (Ends-ok (default_result r e user spec "disabled" [])))
]

-- From any depth, with fuel that passes the depths up to the limit, `eval` ends: it returns a
-- result or panics, whatever the specs refer to.
pub eval-Ends :
    (r : Runtime) (e : Evaluator) (user : User) (n : ℕ) (spec : ConfigSpec) (d : ℕ)
    → 0 < n
    → max_recursive_depth + 1 < n + d
    → Ends (eval r e user n spec d)
unfolding eval
eval-Ends r e user zero spec d p h = absurd (omega arith)
eval-Ends r e user (suc n) spec d p h =
    eval_body-Ends r e user (eval r e user n) spec d
      (λ fits other d' g. eval-Ends r e user n other d' (omega arith) (omega arith))
