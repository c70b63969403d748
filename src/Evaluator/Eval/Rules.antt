-- ===== src/Evaluator/Eval/Rules.antt =====
-- What a rule makes of its conditions, and what `eval` makes of the rules in their order.
use statsig_go_sdk.Prelude.{
  ℕ, ◌+◌, ◌≡◌, refl, sym, ap, ◌∙◌, false, ◌&&◌, ◌||◌, List, [], ◌∷◌, ◌++◌, append-nil, append_assoc,
  arith, all, any,
}
use statsig_go_sdk.Runtime.{Runtime}
use statsig_go_sdk.Types.{User}
use statsig_go_sdk.Spec.{ConfigCondition, ConfigRule, ConfigSpec}
use statsig_go_sdk.Evaluator.Result.{
  EvalResult, zero_result, Exposure, Outcome, ok, ◌>>=◌, >>=-eq, >>=_assoc,
}
use statsig_go_sdk.Evaluator.Condition.{Evaluator, eval_condition}
use statsig_go_sdk.Evaluator.Eval.{eval_conditions, eval_rule, eval_rules}

abbrev pub exposures_of : List EvalResult → List Exposure
exposures_of [] = []
exposures_of (res ∷ results) = res.secondary_exposures ++ exposures_of results

-- The result of a rule, from the results of all its conditions.
abbrev pub rule_summary : List EvalResult → EvalResult
rule_summary results = record zero_result {
  pass = all (λ (res : EvalResult). res.pass) results;
  fetch_from_server = any (λ (res : EvalResult). res.fetch_from_server) results;
  secondary_exposures = exposures_of results;
}

-- The result that the loop reaches from `final`.
abbrev summed : EvalResult → List EvalResult → EvalResult
summed final results = record final {
  pass = final.pass && all (λ (res : EvalResult). res.pass) results;
  fetch_from_server =
      final.fetch_from_server || any (λ (res : EvalResult). res.fetch_from_server) results;
  secondary_exposures = final.secondary_exposures ++ exposures_of results;
}

summed-nil : (final : EvalResult) → summed final [] ≡ final
unfolding all any
summed-nil final = ground (arith, append-nil final.secondary_exposures)

summed-cons :
    (final res : EvalResult) (results : List EvalResult)
    → summed
        (record final {
          pass = final.pass && res.pass;
          fetch_from_server = final.fetch_from_server || res.fetch_from_server;
          secondary_exposures = final.secondary_exposures ++ res.secondary_exposures;
        })
        results
      ≡ summed final (res ∷ results)
unfolding all any
summed-cons final res results =
    ground
      (arith, append_assoc final.secondary_exposures res.secondary_exposures (exposures_of results))

module _ (r : Runtime) (e : Evaluator) (user : User)
    (rec : ConfigSpec → ℕ → Outcome EvalResult) where
  -- The results of all conditions, in their order.
  pub condition_results : List ConfigCondition → ℕ → Outcome (List EvalResult)
  condition_results [] depth = ok []
  condition_results (cond ∷ conds) depth = eval_condition r e user rec cond (depth + 1) >>= λ res.
      condition_results conds depth >>= λ results. ok (res ∷ results)

  eval_conditions-summed :
      (conds : List ConfigCondition) (final : EvalResult) (depth : ℕ)
      → eval_conditions r e user rec conds final depth
        ≡ (condition_results conds depth >>= λ results. ok (summed final results))
  unfolding eval_conditions condition_results
  eval_conditions-summed [] final depth = ap ok (sym (summed-nil final))
  eval_conditions-summed (cond ∷ conds) final depth =
      >>=-eq (eval_condition r e user rec cond (depth + 1)) _ _ _ refl (λ res.
        eval_conditions-summed conds _ depth
        ∙ >>=-eq (condition_results conds depth) _ _ _ refl
            (λ results. ap ok (summed-cons final res results))
        ∙ sym (>>=_assoc (condition_results conds depth) _ _))
      ∙ sym (>>=_assoc (eval_condition r e user rec cond (depth + 1)) _ _)

  -- A rule evaluates every condition, in order and also past one that fails: it passes exactly if
  -- all of them pass, leaves the decision to the server if one does, and its exposures are theirs.
  pub eval_rule-summary :
      (rule : ConfigRule) (depth : ℕ)
      → eval_rule r e user rec rule depth
        ≡ (condition_results rule.conditions depth >>= λ results. ok (rule_summary results))
  unfolding eval_rule
  eval_rule-summary rule depth = eval_conditions-summed rule.conditions _ depth

  -- The rules that `eval` passes over, with the exposures that they leave.
  pub data Skipped (depth : ℕ) : List ConfigRule → List Exposure → Type 0 where
    none_skipped : Skipped depth [] []
    skip :
        {rules : List ConfigRule} {xs : List Exposure} (rule : ConfigRule) (res : EvalResult)
        → eval_rule r e user rec rule (depth + 1) ≡ ok res
        → res.fetch_from_server ≡ false
        → res.pass ≡ false
        → Skipped depth rules xs
        → Skipped depth (rule ∷ rules) (res.secondary_exposures ++ xs)

  -- Skipped rules only add their exposures.
  pub eval_rules-Skipped :
      (spec : ConfigSpec) (rest : List ConfigRule) (depth : ℕ) (exposures : List Exposure)
      {rules : List ConfigRule} {xs : List Exposure}
      → Skipped depth rules xs
      → eval_rules r e user rec spec (rules ++ rest) exposures depth
        ≡ eval_rules r e user rec spec rest (exposures ++ xs) depth
  unfolding eval_rules
  eval_rules-Skipped spec rest depth exposures none_skipped = rw append-nil
  eval_rules-Skipped spec rest depth exposures
        (skip {rules = rules} {xs = xs} rule res ran local fails skipped) =
      rw (ran, local, fails)
        (eval_rules-Skipped spec rest depth (exposures ++ res.secondary_exposures) skipped
          ∙ ap (λ ys. eval_rules r e user rec spec rest ys depth)
              (append_assoc exposures res.secondary_exposures xs))
