-- ===== src/Evaluator/Eval/Fuel.antt =====
-- The result of `eval` does not depend on the fuel, once it is enough.
use statsig_go_sdk.Prelude.{
  ℕ, zero, suc, ◌+◌, ◌≤◌, ◌<◌, String, ◌≡◌, refl, inl, inr, Bool, true, false, List, [], ◌∷◌, ◌++◌,
  arith, ltb, ltb-ge, Bool-cases, Option-cases,
}
use statsig_go_sdk.Dict.{lookup}
use statsig_go_sdk.Value.{Value, string}
use statsig_go_sdk.Runtime.{Runtime}
use statsig_go_sdk.Types.{User}
use statsig_go_sdk.Spec.{ConfigCondition, ConfigRule, ConfigSpec}
use statsig_go_sdk.Store.State.{get_gate, get_dynamic_config}
use statsig_go_sdk.Evaluator.Result.{EvalResult, Exposure, Outcome, >>=-eq}
use statsig_go_sdk.Evaluator.Condition.{Evaluator, eval_gate, eval_gate_condition, eval_condition}
use statsig_go_sdk.Evaluator.Eval.{
  max_recursive_depth, eval_conditions, eval_rule, eval_delegate, passed, eval_rules, eval_body,
  eval,
}

module _ (r : Runtime) (e : Evaluator) (user : User)
    (rec rec' : ConfigSpec → ℕ → Outcome EvalResult) (bound : ℕ)
    (same : (spec : ConfigSpec) (d : ℕ) → bound < d → rec spec d ≡ rec' spec d) where
  eval_gate-same :
      (name : String) (d : ℕ)
      → bound ≤ d
      → eval_gate r e user rec name d ≡ eval_gate r e user rec' name d
  unfolding eval_gate
  eval_gate-same name d h = elim (Option-cases (lookup name e.gate_overrides)) [
    | inr (value, over) ↦ rw over
    | inl plain ↦ elim (Option-cases (get_gate e.store name)) [
      | inl missing ↦ rw (plain, missing)
      | inr (spec, found) ↦ rw (plain, found) (same spec (d + 1) (omega arith))
    ]
  ]

  eval_gate_condition-same :
      (passes : Bool) (target : Value) (d : ℕ)
      → bound ≤ d
      → eval_gate_condition r e user rec passes target d
        ≡ eval_gate_condition r e user rec' passes target d
  unfolding eval_gate_condition
  eval_gate_condition-same passes (string name) d h = rw (eval_gate-same name (d + 1) (omega arith))
  eval_gate_condition-same passes _ d h = refl

  eval_condition-same :
      (cond : ConfigCondition) (d : ℕ)
      → bound ≤ d
      → eval_condition r e user rec cond d ≡ eval_condition r e user rec' cond d
  unfolding eval_condition
  eval_condition-same cond d h = rw (
    eval_gate_condition-same true cond.target_value d h,
    eval_gate_condition-same false cond.target_value d h,
  )

  eval_conditions-same :
      (conds : List ConfigCondition) (final : EvalResult) (d : ℕ)
      → bound ≤ d
      → eval_conditions r e user rec conds final d ≡ eval_conditions r e user rec' conds final d
  unfolding eval_conditions
  eval_conditions-same [] final d h = refl
  eval_conditions-same (cond ∷ conds) final d h =
      >>=-eq (eval_condition r e user rec cond (d + 1)) _ _ _
        (eval_condition-same cond (d + 1) (omega arith)) (λ res. eval_conditions-same conds _ d h)

  passed-same :
      (spec : ConfigSpec) (rule : ConfigRule) (exposures : List Exposure) (d : ℕ)
      → bound ≤ d
      → passed r e user rec spec rule exposures d ≡ passed r e user rec' spec rule exposures d
  unfolding passed eval_delegate
  passed-same spec rule exposures d h =
      elim (Option-cases (get_dynamic_config e.store rule.config_delegate)) [
        | inl missing ↦ rw missing
        | inr (config, found) ↦ rw (found, same config (d + 1 + 1) (omega arith))
      ]

  eval_rules-same :
      (spec : ConfigSpec) (rules : List ConfigRule) (exposures : List Exposure) (d : ℕ)
      → bound ≤ d
      → eval_rules r e user rec spec rules exposures d
        ≡ eval_rules r e user rec' spec rules exposures d
  unfolding eval_rules eval_rule
  eval_rules-same spec [] exposures d h = refl
  eval_rules-same spec (rule ∷ rules) exposures d h =
      >>=-eq (eval_rule r e user rec rule (d + 1)) _ _ _
        (eval_conditions-same rule.conditions _ (d + 1) (omega arith))
        (λ res. rw (
          passed-same spec rule (exposures ++ res.secondary_exposures) d h,
          eval_rules-same spec rules (exposures ++ res.secondary_exposures) d h,
        ))

eval_body-same :
    (r : Runtime) (e : Evaluator) (user : User) (rec rec' : ConfigSpec → ℕ → Outcome EvalResult)
    (spec : ConfigSpec) (d : ℕ)
    → (d ≤ max_recursive_depth
        → (other : ConfigSpec) (d' : ℕ) → d < d'
        → rec other d' ≡ rec' other d')
    → eval_body r e user rec spec d ≡ eval_body r e user rec' spec d
unfolding eval_body
eval_body-same r e user rec rec' spec d same = elim (Bool-cases (ltb max_recursive_depth d)) [
  | inl deep ↦ rw deep
  | inr fits ↦ rw (
      eval_rules-same r e user rec rec' d (same (ltb-ge max_recursive_depth d fits)) spec spec.rules
        [] d (omega arith))
]

-- Two amounts of fuel that both pass the depths up to the limit give the same result.
pub eval-fuel :
    (r : Runtime) (e : Evaluator) (user : User) (n m : ℕ) (spec : ConfigSpec) (d : ℕ)
    → 0 < n
    → 0 < m
    → max_recursive_depth + 1 < n + d
    → max_recursive_depth + 1 < m + d
    → eval r e user n spec d ≡ eval r e user m spec d
unfolding eval
eval-fuel r e user zero m spec d p q h g = absurd (omega arith)
eval-fuel r e user (suc n) zero spec d p q h g = absurd (omega arith)
eval-fuel r e user (suc n) (suc m) spec d p q h g =
    eval_body-same r e user (eval r e user n) (eval r e user m) spec d (λ fits other d' lt.
      eval-fuel r e user n m other d' (omega arith) (omega arith) (omega arith) (omega arith))
