-- ===== src/Evaluator/Compare.antt =====
-- evaluator.go: comparisons of dynamic values as numbers and as strings, and membership.
use statsig_go_sdk.Prelude.{String, Bool, true, false, ◌||◌, Option, none, some, if◌then◌else◌}
use statsig_go_sdk.Prelude.Int.{pos}
use statsig_go_sdk.Value.{
  Float64, Value, nil, string, int, int32, int64, uint64, float32, float64, array, Values, end,
  item,
}
use statsig_go_sdk.Runtime.{Runtime, to_lower}

-- `arrayAny`: the test takes the value and then the item.
unfoldable pub any_item : (Value → Value → Bool) → Value → Values → Bool
any_item test val end = false
any_item test val (item v vs) = test val v || any_item test val vs

unfoldable pub array_any : Value → Value → (Value → Value → Bool) → Bool
unfolding any_item
array_any (array vs) val test = any_item test val vs
array_any _ val test = false

-- `toString`
abbrev pub to_string : Value → String
to_string (string s) = s
to_string _ = ""

-- `value == nil`
abbrev pub is_nil : Value → Bool
is_nil nil = true
is_nil _ = false

module _ (r : Runtime) where
  -- `getNumericValue`
  unfoldable pub get_numeric_value : Value → Option Float64
  get_numeric_value (int n) = some (r.float_of_int n)
  get_numeric_value (int32 n) = some (r.float_of_int n)
  get_numeric_value (int64 n) = some (r.float_of_int n)
  get_numeric_value (uint64 n) = some (r.float_of_int (pos n))
  get_numeric_value (float32 x) = some (r.float_of_float32 x)
  get_numeric_value (float64 x) = some x
  get_numeric_value (string s) = r.parse_float s
  get_numeric_value _ = none

  abbrev both_numbers : (Float64 → Float64 → Bool) → Option Float64 → Option Float64 → Bool
  both_numbers test (some x) (some y) = test x y
  both_numbers test _ _ = false

  -- `compareNumbers`
  unfoldable pub compare_numbers : Value → Value → (Float64 → Float64 → Bool) → Bool
  unfolding get_numeric_value
  compare_numbers a b test = both_numbers test (get_numeric_value a) (get_numeric_value b)

  -- A string itself, and any other value as `%v` prints it.
  abbrev text_of : Value → String
  text_of (string s) = s
  text_of v = r.format_value v

  -- `compareStrings`
  unfoldable pub compare_strings : Value → Value → Bool → (String → String → Bool) → Bool
  compare_strings s1 s2 ignore_case test =
      if is_nil s1 || is_nil s2
      then false
      else if ignore_case
      then test (to_lower r (text_of s1)) (to_lower r (text_of s2))
      else test (text_of s1) (text_of s2)
