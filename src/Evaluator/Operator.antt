-- ===== src/Evaluator/Operator.antt =====
-- evaluator.go: the switch of `evalCondition` over the operator. A verdict is whether the
-- condition passes and whether the server must decide; `none` is a panic on a nil dereference.
pub mod Negation
use statsig_go_sdk.Prelude.{
  String, Bool, true, false, not, ◌&&◌, ◌||◌, Option, none, some, List, [], ◌∷◌, ◌==◌, take, nat_eq,
  if◌then◌else◌, any,
}
use statsig_go_sdk.Prelude.Int.{ℤ, pos, ltb_ℤ, leb_ℤ, eq_ℤ}
use statsig_go_sdk.Text.{Codes, codes, has_prefix, has_suffix, contains}
use statsig_go_sdk.Value.{Value, nil, string, is_empty, deep_equal}
use statsig_go_sdk.Runtime.{Runtime, float_le}
use statsig_go_sdk.Store.State.{IdList, Store, get_id_list}
use statsig_go_sdk.Store.IdLists.Lines.{holds}
use statsig_go_sdk.Evaluator.Compare.{
  array_any, to_string, compare_numbers, compare_strings, is_nil,
}
use statsig_go_sdk.Evaluator.Version.{compare_versions, compare_versions_helper}
use statsig_go_sdk.Evaluator.Clock.{before, same_date, get_time}

abbrev pub Verdict : Type 0
Verdict = Option (Bool × Bool)

-- The operator decided.
abbrev pub decided : Bool → Verdict
decided pass = some (pass, false)

-- `_, inlist = list.ids.Load(…)`; a nil map panics.
abbrev load_id : Option (List Codes) → Codes → Option Bool
load_id none id = none
load_id (some ids) id = some (holds id ids)

module _ (r : Runtime) (s : Store) where
  -- The key of a value in an ID list: eight characters of the hash.
  unfoldable pub id_list_key : String → Codes
  id_list_key value = take 8 (codes (r.base64 (r.sha256 value)))

  abbrev in_list : Option IdList → String → Option Bool
  in_list none value = some false
  in_list (some list) value = load_id list.ids (id_list_key value)

  -- `reflect.TypeOf(v).String()` panics at nil.
  unfoldable pub in_segment_list : Value → Value → Option Bool
  in_segment_list nil value = none
  in_segment_list (string target) nil = none
  in_segment_list (string target) (string v) = in_list (get_id_list s target) v
  in_segment_list (string target) _ = some false
  in_segment_list _ value = some false

  abbrev pub membership : Bool → Option Bool → Verdict
  membership negated none = none
  membership negated (some inlist) = decided (if negated then not inlist else inlist)

  -- `eq`
  unfoldable pub strict_equal : Value → Value → Bool
  strict_equal value nil = is_empty value
  strict_equal value target = deep_equal r.float_eq value target

  -- `str_matches`
  unfoldable pub matches : Value → Value → Bool
  matches value target =
      if is_nil target || is_nil value
      then is_nil target && is_nil value
      else r.match_regexp (to_string target) (to_string value)

  -- Membership of the value in the target under a test of strings.
  unfoldable pub any_string : Bool → (String → String → Bool) → Value → Value → Bool
  any_string ignore_case test value target =
      array_any target value (λ x y. compare_strings r x y ignore_case test)

  abbrev pub str_eq : String → String → Bool
  str_eq s1 s2 = s1 == s2

  abbrev pub str_prefix : String → String → Bool
  str_prefix s1 s2 = has_prefix (codes s1) (codes s2)

  abbrev pub str_suffix : String → String → Bool
  str_suffix s1 s2 = has_suffix (codes s1) (codes s2)

  abbrev pub str_contains : String → String → Bool
  str_contains s1 s2 = contains (codes s1) (codes s2)

  -- The last cases: time, and ID lists.
  unfoldable pub time_operator : String → Value → Value → Verdict
  time_operator op value target =
      if op == "before"
      then decided (before (get_time r value) (get_time r target))
      else if op == "after"
      then decided (before (get_time r target) (get_time r value))
      else if op == "on"
      then decided (same_date (r.date (get_time r value)) (r.date (get_time r target)))
      else if op == "in_segment_list"
      then membership false (in_segment_list target value)
      else if op == "not_in_segment_list"
      then membership true (in_segment_list target value)
      else some (false, true)

  unfoldable pub string_operator : String → Value → Value → Verdict
  string_operator op value target =
      if op == "any"
      then decided (any_string true str_eq value target)
      else if op == "none"
      then decided (not (any_string true str_eq value target))
      else if op == "any_case_sensitive"
      then decided (any_string false str_eq value target)
      else if op == "none_case_sensitive"
      then decided (not (any_string false str_eq value target))
      else if op == "str_starts_with_any"
      then decided (any_string true str_prefix value target)
      else if op == "str_ends_with_any"
      then decided (any_string true str_suffix value target)
      else if op == "str_contains_any"
      then decided (any_string true str_contains value target)
      else if op == "str_contains_none"
      then decided (not (any_string true str_contains value target))
      else if op == "str_matches"
      then decided (matches value target)
      else if op == "eq"
      then decided (strict_equal value target)
      else if op == "neq"
      then decided (not (strict_equal value target))
      else time_operator op value target

  abbrev version_test : (ℤ → Bool) → Value → Value → Bool
  version_test test = compare_versions (λ x y. test (compare_versions_helper x y))

  unfoldable pub run_operator : String → Value → Value → Verdict
  run_operator op value target =
      if op == "gt"
      then decided (compare_numbers r value target (λ x y. r.float_lt y x))
      else if op == "gte"
      then decided (compare_numbers r value target (λ x y. float_le r y x))
      else if op == "lt"
      then decided (compare_numbers r value target r.float_lt)
      else if op == "lte"
      then decided (compare_numbers r value target (float_le r))
      else if op == "version_gt"
      then decided (version_test (λ n. ltb_ℤ (pos 0) n) value target)
      else if op == "version_gte"
      then decided (version_test (λ n. leb_ℤ (pos 0) n) value target)
      else if op == "version_lt"
      then decided (version_test (λ n. ltb_ℤ n (pos 0)) value target)
      else if op == "version_lte"
      then decided (version_test (λ n. leb_ℤ n (pos 0)) value target)
      else if op == "version_eq"
      then decided (version_test (λ n. eq_ℤ n (pos 0)) value target)
      else if op == "version_neq"
      then decided (version_test (λ n. not (eq_ℤ n (pos 0))) value target)
      else string_operator op value target
