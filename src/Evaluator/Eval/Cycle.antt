-- ===== src/Evaluator/Eval/Cycle.antt =====
-- Gates that depend on one another in a circle.
use statsig_go_sdk.Prelude.{
  ℕ, zero, suc, ◌+◌, ◌<◌, String, ◌≡◌, ◌∙◌, ◌⊎◌, inl, inr, true, none, some, List, [], ◌∷◌, arith,
  ltb, ltb-ge, Bool-cases,
}
use statsig_go_sdk.Dict.{lookup}
use statsig_go_sdk.Value.{string}
use statsig_go_sdk.Runtime.{Runtime, to_lower}
use statsig_go_sdk.Types.{User}
use statsig_go_sdk.Spec.{ConfigCondition, ConfigRule, ConfigSpec}
use statsig_go_sdk.Store.State.{get_gate}
use statsig_go_sdk.Evaluator.Result.{EvalResult, Outcome, panic, depth_exceeded}
use statsig_go_sdk.Evaluator.Condition.{Evaluator, eval_gate, eval_gate_condition, eval_condition}
use statsig_go_sdk.Evaluator.Eval.{
  max_recursive_depth, eval_conditions, eval_rule, eval_rules, eval_body, eval,
}
use statsig_go_sdk.Evaluator.Eval.Decision.{eval_enabled}
use statsig_go_sdk.Evaluator.Api.{eval_fuel, check_gate}

-- The spec is enabled, and the first condition of its first rule asks for another gate.
pub record Asks (r : Runtime) (spec : ConfigSpec) (next : String) : Type 0 where
  pub rule : ConfigRule
  pub cond : ConfigCondition
  pub later_rules : List ConfigRule
  pub later_conds : List ConfigCondition
  pub enabled : spec.enabled ≡ true
  pub first_rule : spec.rules ≡ rule ∷ later_rules
  pub first_cond : rule.conditions ≡ cond ∷ later_conds
  pub asks : (to_lower r cond.type ≡ "pass_gate") ⊎ (to_lower r cond.type ≡ "fail_gate")
  pub target : cond.target_value ≡ string next

-- A set of gates, none overridden, each of which asks for another of the set.
pub record IsCycle (r : Runtime) (e : Evaluator) (InSet : String → Type 0) : Type 0 where
  pub plain : (g : String) → InSet g → lookup g e.gate_overrides ≡ none
  pub spec_of : (g : String) → InSet g → ConfigSpec
  pub known : (g : String) (h : InSet g) → get_gate e.store g ≡ some (spec_of g h)
  pub next : (g : String) → InSet g → String
  pub stays : (g : String) (h : InSet g) → InSet (next g h)
  pub asks_next : (g : String) (h : InSet g) → Asks r (spec_of g h) (next g h)

module _ (r : Runtime) (e : Evaluator) (user : User)
    (rec : ConfigSpec → ℕ → Outcome EvalResult) where
  eval_condition_panics :
      (cond : ConfigCondition) (g : String) (d : ℕ)
      → (to_lower r cond.type ≡ "pass_gate") ⊎ (to_lower r cond.type ≡ "fail_gate")
      → cond.target_value ≡ string g
      → eval_gate r e user rec g (d + 1) ≡ panic depth_exceeded
      → eval_condition r e user rec cond d ≡ panic depth_exceeded
  unfolding eval_condition eval_gate_condition
  eval_condition_panics cond g d (inl pass) target stops = rw (pass, target, stops)
  eval_condition_panics cond g d (inr fail) target stops = rw (fail, target, stops)

  eval_rules_panics :
      (spec : ConfigSpec) (g : String) (d : ℕ) (a : Asks r spec g)
      → eval_gate r e user rec g (d + 1 + 1 + 1) ≡ panic depth_exceeded
      → eval_rules r e user rec spec spec.rules [] d ≡ panic depth_exceeded
  unfolding eval_rules eval_rule eval_conditions
  eval_rules_panics spec g d a stops =
      rw (
        a.first_rule,
        a.first_cond,
        eval_condition_panics a.cond g (d + 1 + 1) a.asks a.target stops,
      )

module _ (r : Runtime) (e : Evaluator) (user : User) (InSet : String → Type 0)
    (cycle : IsCycle r e InSet) where
  eval_gate_known :
      (rec : ConfigSpec → ℕ → Outcome EvalResult) (g : String) (h : InSet g) (d : ℕ)
      → eval_gate r e user rec g d ≡ rec (cycle.spec_of g h) (d + 1)
  unfolding eval_gate
  eval_gate_known rec g h d = rw (cycle.plain g h, cycle.known g h)

  eval_panics :
      (n : ℕ) (g : String) (h : InSet g) (d : ℕ)
      → 0 < n
      → max_recursive_depth + 1 < n + d
      → eval r e user n (cycle.spec_of g h) d ≡ panic depth_exceeded
  unfolding eval eval_body
  eval_panics zero g h d p q = absurd (omega arith)
  eval_panics (suc n) g h d p q = elim (Bool-cases (ltb max_recursive_depth d)) [
    | inl deep ↦ rw deep
    | inr fits ↦
        eval_enabled r e user n (cycle.spec_of g h) d (ltb-ge max_recursive_depth d fits)
          (cycle.asks_next g h).enabled
        ∙ eval_rules_panics r e user (eval r e user n) (cycle.spec_of g h) (cycle.next g h) d
            (cycle.asks_next g h)
            (eval_gate_known (eval r e user n) (cycle.next g h) (cycle.stays g h) (d + 1 + 1 + 1)
              ∙ eval_panics n (cycle.next g h) (cycle.stays g h) (d + 1 + 1 + 1 + 1)
                  (ground (arith, ltb-ge max_recursive_depth d fits)) (omega arith))
  ]

  -- Checking a gate of a cycle panics with "Evaluation Depth Exceeded", whoever asks: no gate of
  -- the cycle has a value. The cycle is a set of gates without overrides, each enabled, in which
  -- the first condition of a gate's first rule asks for another gate of the set.
  pub check_gate_cycle : (g : String) → InSet g → check_gate r e user g ≡ panic depth_exceeded
  unfolding check_gate
  check_gate_cycle g h =
      eval_gate_known (eval r e user eval_fuel) g h 0
      ∙ eval_panics eval_fuel g h (0 + 1) (omega arith) (omega arith)
