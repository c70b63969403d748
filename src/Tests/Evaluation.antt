-- ===== src/Tests/Evaluation.antt =====
-- Gates of the test project.
use statsig_go_sdk.Prelude.{
  ℕ, String, ◌≡◌, refl, Bool, true, false, Option, none, some, [], ◌∷◌, arith, inl,
}
use statsig_go_sdk.Dict.{lookup}
use statsig_go_sdk.Text.{lower_all}
use statsig_go_sdk.Spec.{ConfigRule, ConfigSpec}
use statsig_go_sdk.Evaluator.Result.{
  EvalResult, zero_result, Outcome, ok, panic, depth_exceeded, Ends, ◌>>=◌,
}
use statsig_go_sdk.Evaluator.Condition.{
  eval_gate, eval_gate_condition, eval_condition, create_evaluation_details, big_endian,
  get_hash_uint64_encoding,
}
use statsig_go_sdk.Evaluator.UserFields.{get_unit_id}
use statsig_go_sdk.Evaluator.Eval.{
  eval, eval_body, eval_rules, eval_rule, eval_conditions, passed, eval_delegate, rule_result,
  default_result, eval_pass_percent, bucket,
}
use statsig_go_sdk.Evaluator.Eval.Depth.{eval-Ends}
use statsig_go_sdk.Evaluator.Eval.Rules.{rule_summary, condition_results, eval_rule-summary}
use statsig_go_sdk.Evaluator.Eval.Cycle.{IsCycle, Asks, check_gate_cycle}
use statsig_go_sdk.Evaluator.Api.{check_gate}
use statsig_go_sdk.Evaluator.Condition.{Evaluator}
use statsig_go_sdk.Tests.Data.{
  project, test_runtime, ada, evaluator, loop_gate, open_gate, whole_rule, gate_condition,
  gate_spec, public_condition,
}

-- The outcome's pass and rule ID.
abbrev summary : Outcome EvalResult → Option (Bool × String)
summary (ok res) = some (res.pass, res.id)
summary _ = none

run : String → Outcome EvalResult
unfolding check_gate eval_gate lookup eval eval_body eval_rules eval_rule eval_conditions
    eval_condition lower_all eval_gate_condition passed eval_delegate rule_result default_result
    eval_pass_percent bucket get_unit_id big_endian get_hash_uint64_encoding
    create_evaluation_details
run = check_gate test_runtime evaluator ada

open_passes : summary (run "open") ≡ some (true, "everyone")
unfolding run
open_passes = refl

shut_fails : summary (run "shut") ≡ some (false, "nobody")
unfolding run
shut_fails = refl

shut_twice_fails : summary (run "shut_twice") ≡ some (false, "default")
unfolding run
shut_twice_fails = refl

loop_panics : run "loop" ≡ panic depth_exceeded
unfolding run
loop_panics = refl

abbrev rec : ConfigSpec → ℕ → Outcome EvalResult
rec = eval test_runtime evaluator ada 301

eval-Ends_example : Ends (eval test_runtime evaluator ada 302 loop_gate 1)
eval-Ends_example = eval-Ends test_runtime evaluator ada 302 loop_gate 1 (omega arith) (omega arith)

abbrev if_shut : ConfigRule
if_shut = whole_rule "if_shut" 100 (gate_condition "pass_gate" "shut" ∷ public_condition ∷ [])

abbrev everyone : ConfigRule
everyone = whole_rule "everyone" 100 (public_condition ∷ [])

eval_rule-summary_example : eval_rule test_runtime evaluator ada rec if_shut 2 ≡ (
    condition_results test_runtime evaluator ada rec if_shut.conditions 2 >>= λ results.
    ok (rule_summary results))
eval_rule-summary_example = eval_rule-summary test_runtime evaluator ada rec if_shut 2

abbrev result_of : Outcome EvalResult → EvalResult
result_of (ok res) = res
result_of _ = zero_result

-- The first rule fails and the second passes.
abbrev two_rules : ConfigSpec
two_rules = gate_spec "two_rules" (if_shut ∷ everyone ∷ [])

abbrev failed_rule : EvalResult
failed_rule = result_of (eval_rule test_runtime evaluator ada rec if_shut 2)

abbrev passing_rule : EvalResult
passing_rule = result_of (eval_rule test_runtime evaluator ada rec everyone 2)

abbrev disabled_gate : ConfigSpec
disabled_gate = record open_gate { enabled = false }

loop-Asks : Asks test_runtime loop_gate "loop"
unfolding lower_all
loop-Asks = record {
  rule = whole_rule "again" 100 (gate_condition "pass_gate" "loop" ∷ []);
  cond = gate_condition "pass_gate" "loop";
  later_rules = [];
  later_conds = [];
  enabled = refl;
  first_rule = refl;
  first_cond = refl;
  asks = inl refl;
  target = refl;
}

pub loop_cycle : IsCycle test_runtime evaluator (λ g. g ≡ "loop")
unfolding lookup
loop_cycle = record {
  plain = λ g h. refl;
  spec_of = λ g h. loop_gate;
  known = λ g h. rw h;
  next = λ g h. "loop";
  stays = λ g h. refl;
  asks_next = λ g h. loop-Asks;
}

check_gate_cycle_example : check_gate test_runtime evaluator ada "loop" ≡ panic depth_exceeded
check_gate_cycle_example =
    check_gate_cycle test_runtime evaluator ada (λ g. g ≡ "loop") loop_cycle "loop" refl

-- A layer whose rule passes the decision on to an experiment.
abbrev experiment : ConfigSpec
experiment = record open_gate {
  name = "experiment";
  type = "dynamic_config";
  explicit_parameters = "colour" ∷ [];
}

abbrev delegating : ConfigRule
delegating = record everyone { config_delegate = "experiment" }

abbrev layer : ConfigSpec
layer = gate_spec "layer" (delegating ∷ [])

abbrev experimenting : Evaluator
experimenting = record evaluator {
  store = record project { dynamic_configs = ("experiment", experiment) ∷ [] };
}

abbrev rec_experimenting : ConfigSpec → ℕ → Outcome EvalResult
rec_experimenting = eval test_runtime experimenting ada 301

abbrev rule_passed : EvalResult
rule_passed = result_of (eval_rule test_runtime experimenting ada rec_experimenting delegating 2)

abbrev experiment_result : EvalResult
experiment_result = result_of (rec_experimenting experiment 3)
