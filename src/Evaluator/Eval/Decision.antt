-- ===== src/Evaluator/Eval/Decision.antt =====
-- Which rule decides a spec, and with what result.
use statsig_go_sdk.Prelude.{
  ℕ, suc, ◌+◌, ◌≤◌, ◌≡◌, ap, ◌∙◌, true, false, List, [], ◌∷◌, ◌++◌, le→ltb,
}
use statsig_go_sdk.Runtime.{Runtime}
use statsig_go_sdk.Types.{User}
use statsig_go_sdk.Spec.{ConfigRule, ConfigSpec}
use statsig_go_sdk.Evaluator.Result.{EvalResult, Exposure, ok}
use statsig_go_sdk.Evaluator.Condition.{Evaluator}
use statsig_go_sdk.Evaluator.Eval.{
  max_recursive_depth, eval_rule, eval_rules, eval_body, eval, default_result,
}
use statsig_go_sdk.Evaluator.Eval.Rules.{Skipped, eval_rules-Skipped}

module _ (r : Runtime) (e : Evaluator) (user : User) (n : ℕ) (spec : ConfigSpec) (d : ℕ)
    (fits : d ≤ max_recursive_depth) where
  -- A disabled spec has its default result under the rule ID "disabled", whatever its rules.
  pub eval_disabled :
      spec.enabled ≡ false
      → eval r e user (suc n) spec d ≡ ok (default_result r e user spec "disabled" [])
  unfolding eval eval_body
  eval_disabled off = rw (le→ltb d max_recursive_depth fits, off)

  pub eval_enabled :
      spec.enabled ≡ true
      → eval r e user (suc n) spec d ≡ eval_rules r e user (eval r e user n) spec spec.rules [] d
  unfolding eval eval_body
  eval_enabled on = rw (le→ltb d max_recursive_depth fits, on)

  module _ (on : spec.enabled ≡ true) {before : List ConfigRule} {xs : List Exposure}
      (skipped : Skipped r e user (eval r e user n) d before xs) where
    reaches :
        (rest : List ConfigRule)
        → spec.rules ≡ before ++ rest
        → eval r e user (suc n) spec d ≡ eval_rules r e user (eval r e user n) spec rest xs d
    reaches rest split =
        eval_enabled on
        ∙ ap (λ rules. eval_rules r e user (eval r e user n) spec rules [] d) split
        ∙ eval_rules-Skipped r e user (eval r e user n) spec rest d [] skipped

    module _ (rule : ConfigRule) (after : List ConfigRule)
        (split : spec.rules ≡ before ++ (rule ∷ after)) (res : EvalResult)
        (ran : eval_rule r e user (eval r e user n) rule (d + 1) ≡ ok res) where
      -- A rule that leaves the decision to the server is the result, as it stands.
      pub eval_first_server : res.fetch_from_server ≡ true → eval r e user (suc n) spec d ≡ ok res
      unfolding eval_rules
      eval_first_server server = rw (reaches (rule ∷ after) split, ran, server)
