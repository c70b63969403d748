-- ===== src/Tests/Operators.antt =====
-- Conditions, operators, versions and percentages at concrete data.
use statsig_go_sdk.Prelude.{ℕ, String, ◌≡◌, ◌≢◌, refl, true, false, [], ◌∷◌, arith, inl, ltb}
use statsig_go_sdk.Prelude.Int.{pos, negsuc}
use statsig_go_sdk.Text.{codes, lower_all, split}
use statsig_go_sdk.Text.Parse.{parse_int}
use statsig_go_sdk.Value.{string, float64, Object}
use statsig_go_sdk.Spec.{ConfigCondition, ConfigRule, ConfigSpec}
use statsig_go_sdk.Store.IdLists.{placeholder}
use statsig_go_sdk.Evaluator.Result.{EvalResult, Outcome, ok}
use statsig_go_sdk.Evaluator.Version.{before_dash, compare_versions_helper}
use statsig_go_sdk.Evaluator.Version.Order.{compare_versions_helper-le_trans}
use statsig_go_sdk.Evaluator.Operator.{run_operator}
use statsig_go_sdk.Evaluator.Operator.Negation.{flipped, run_operator-versions}
use statsig_go_sdk.Evaluator.Condition.{Evaluator, condition_result, eval_condition}
use statsig_go_sdk.Evaluator.Condition.Laws.{eval_condition-eq_number}
use statsig_go_sdk.Evaluator.Eval.{eval, bucket, eval_pass_percent}
use statsig_go_sdk.Evaluator.Eval.Percentage.{eval_pass_percent_whole, eval_pass_percent_ends}
use statsig_go_sdk.Tests.Data.{
  test_runtime, test_runtime-HasExactIntegers, ada, evaluator, project, open_gate, whole_rule,
  public_condition,
}

abbrev half_rule : ConfigRule
half_rule = whole_rule "half" 50 (public_condition ∷ [])

eval_pass_percent_whole_example :
    eval_pass_percent test_runtime ada half_rule open_gate
    ≡ ltb (bucket test_runtime ada half_rule open_gate) 5000
eval_pass_percent_whole_example =
    eval_pass_percent_whole test_runtime test_runtime-HasExactIntegers ada open_gate half_rule 50
      refl (omega arith)

eval_pass_percent_ends_example :
    (half_rule.pass_percentage ≡ test_runtime.float_of_int (pos 0)
      → eval_pass_percent test_runtime ada half_rule open_gate ≡ false)
    × (half_rule.pass_percentage ≡ test_runtime.float_of_int (pos 100)
        → eval_pass_percent test_runtime ada half_rule open_gate ≡ true)
eval_pass_percent_ends_example =
    eval_pass_percent_ends test_runtime test_runtime-HasExactIntegers ada open_gate half_rule

nine_below_ten : compare_versions_helper (codes "1.9.3") (codes "1.10") ≡ negsuc 0
unfolding compare_versions_helper split parse_int
nine_below_ten = refl

one_same : compare_versions_helper (codes "1") (codes "1.0.0") ≡ pos 0
unfolding compare_versions_helper split parse_int
one_same = refl

ten_not_above : compare_versions_helper (codes "1.10") (codes "1.10.0.0") ≢ pos 1
unfolding compare_versions_helper split parse_int
ten_not_above = λ e. cc

longer_not_above : compare_versions_helper (codes "1.10.0.0") (codes "1.10.0.0.0") ≢ pos 1
unfolding compare_versions_helper split parse_int
longer_not_above = λ e. cc

compare_versions_helper-le_trans_example :
    compare_versions_helper (codes "1.10") (codes "1.10.0.0.0") ≢ pos 1
compare_versions_helper-le_trans_example =
    compare_versions_helper-le_trans (codes "1.10") (codes "1.10.0.0") (codes "1.10.0.0.0")
      ten_not_above longer_not_above

run_operator-versions_example :
    (run_operator test_runtime project "version_gte" (string "1.9-beta") (string "1.10")
      ≡ flipped
          (run_operator test_runtime project "version_lt" (string "1.9-beta") (string "1.10")))
    × (run_operator test_runtime project "version_gt" (string "1.9-beta") (string "1.10")
        ≡ flipped
            (run_operator test_runtime project "version_lte" (string "1.9-beta") (string "1.10")))
    × (run_operator test_runtime project "version_neq" (string "1.9-beta") (string "1.10")
        ≡ flipped
            (run_operator test_runtime project "version_eq" (string "1.9-beta") (string "1.10")))
    × (run_operator test_runtime project "version_gt" (string "1.10") (string "1.9-beta")
        ≡ run_operator test_runtime project "version_lt" (string "1.9-beta") (string "1.10"))
unfolding before_dash split
run_operator-versions_example =
    run_operator-versions test_runtime project "1.9-beta" "1.10" refl refl

abbrev rec : ConfigSpec → ℕ → Outcome EvalResult
rec = eval test_runtime evaluator ada 301

abbrev time_condition : ConfigCondition
time_condition = record {
  type = "current_time";
  operator = "eq";
  field = "";
  target_value = float64 (test_runtime.float_of_int (pos 1700000000));
  additional_values = [];
  id_type = "userID";
}

eval_condition-eq_number_example :
    eval_condition test_runtime evaluator ada rec time_condition 2
    ≡ ok (condition_result false false)
unfolding lower_all
eval_condition-eq_number_example =
    eval_condition-eq_number test_runtime evaluator ada rec time_condition 2
      (test_runtime.float_of_int (pos 1700000000)) (inl refl) refl refl

abbrev list_condition : String → String → ConfigCondition
list_condition type operator = record {
  type = type;
  operator = operator;
  field = "team";
  target_value = string "staff";
  additional_values = [];
  id_type = "userID";
}

abbrev announced : Evaluator
announced = record evaluator {
  store = record project { id_lists = ("staff", placeholder "staff") ∷ [] };
}

abbrev answer : Object
answer = ("answer", string "42") ∷ []
