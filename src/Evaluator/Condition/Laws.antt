-- ===== src/Evaluator/Condition/Laws.antt =====
-- What single conditions answer: gates that depend on gates, and the values without an answer.
use statsig_go_sdk.Prelude.{
  ℕ, String, ◌≡◌, refl, ◌⊎◌, inl, inr, false, not, Option, none, some, if◌then◌else◌,
}
use statsig_go_sdk.Value.{Value, string, float64, Float64, deep_equal}
use statsig_go_sdk.Runtime.{Runtime, to_lower}
use statsig_go_sdk.Types.{User}
use statsig_go_sdk.Spec.{ConfigCondition, ConfigSpec}
use statsig_go_sdk.Dict.{lookup}
use statsig_go_sdk.Store.State.{IdList, get_id_list}
use statsig_go_sdk.Evaluator.UserFields.{get_unit_id}
use statsig_go_sdk.Evaluator.Result.{EvalResult, Outcome, ok, panic, nil_dereference}
use statsig_go_sdk.Evaluator.Operator.{
  in_segment_list, strict_equal, run_operator, string_operator, time_operator,
}
use statsig_go_sdk.Evaluator.Condition.{
  Evaluator, condition_result, condition_value, salted_bucket, eval_condition,
}

-- The opposite answer to a condition on another gate; a decision of the server stays one.
abbrev pub opposite_result : EvalResult → EvalResult
opposite_result res = if res.fetch_from_server then res else record res { pass = not res.pass }

module _ (r : Runtime) (e : Evaluator) (user : User)
    (rec : ConfigSpec → ℕ → Outcome EvalResult) where
  module _ (cond : ConfigCondition) (d : ℕ) where
    salted_bucket-eq :
        (salt : Option Value) (unit : String) (x : Float64)
        → strict_equal r e.store (salted_bucket r e user salt unit) (float64 x) ≡ false
    unfolding strict_equal deep_equal
    salted_bucket-eq none unit x = refl
    salted_bucket-eq (some (string s)) unit x = refl
    salted_bucket-eq (some _) unit x = refl

    -- `eq` never holds between the current time or a user's bucket and a number of the
    -- configuration, whatever the number: the one is an `int64` and the other a `float64`.
    pub eval_condition-eq_number :
        (x : Float64)
        → (to_lower r cond.type ≡ "current_time") ⊎ (to_lower r cond.type ≡ "user_bucket")
        → to_lower r cond.operator ≡ "eq"
        → cond.target_value ≡ float64 x
        → eval_condition r e user rec cond d ≡ ok (condition_result false false)
    unfolding eval_condition condition_value run_operator string_operator strict_equal deep_equal
    eval_condition-eq_number x (inl time) op target = rw (time, op, target)
    eval_condition-eq_number x (inr bucket) op target =
        rw (bucket, op, target)
          (rw (
            salted_bucket-eq (lookup "salt" cond.additional_values)
              (get_unit_id r user cond.id_type) x))

    -- A membership test on the unit's ID, positive or negated, panics if the list has no set of
    -- IDs, as an entry that the server has announced and that was never downloaded.
    pub eval_condition-nil_ids :
        (list : String) (entry : IdList)
        → to_lower r cond.type ≡ "unit_id"
        → (to_lower r cond.operator ≡ "in_segment_list")
          ⊎ (to_lower r cond.operator ≡ "not_in_segment_list")
        → cond.target_value ≡ string list
        → get_id_list e.store list ≡ some entry
        → entry.ids ≡ none
        → eval_condition r e user rec cond d ≡ panic nil_dereference
    unfolding eval_condition condition_value run_operator string_operator time_operator
        in_segment_list
    eval_condition-nil_ids list entry field (inl op) target known empty =
        rw (field, op, target, known, empty)
    eval_condition-nil_ids list entry field (inr op) target known empty =
        rw (field, op, target, known, empty)
