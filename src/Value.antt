-- ===== src/Value.antt =====
-- Go's `interface{}` as the SDK meets it: what `encoding/json` decodes and what a caller puts into
-- `User.Custom`. A float is its bit pattern; the operations on floats are those of `Runtime`.
use statsig_go_sdk.Prelude.{
  ℕ, String, Bool, true, false, ◌&&◌, List, [], ◌∷◌, ◌==◌, nat_eq, if◌then◌else◌,
}
use statsig_go_sdk.Prelude.Int.{ℤ, eq_ℤ}
use statsig_go_sdk.Dict.{Dict}

-- The bits of a `float64`.
pub record Float64 : Type 0 where
  pub bits : ℕ

mutual
  pub data Value : Type 0 where
    nil : Value
    bool : Bool → Value
    string : String → Value
    int : ℤ → Value
    int32 : ℤ → Value
    int64 : ℤ → Value
    uint64 : ℕ → Value
    float32 : ℕ → Value
    float64 : Float64 → Value
    array : Values → Value
    object : Fields → Value
    -- any other type, of which only an identity is known
    opaque : ℕ → Value

  -- `[]interface{}`
  pub data Values : Type 0 where
    end : Values
    item : Value → Values → Values

  -- `map[string]interface{}`
  pub data Fields : Type 0 where
    done : Fields
    field : String → Value → Fields → Fields

abbrev pub Object : Type 0
Object = Dict Value

unfoldable pub to_list : Values → List Value
to_list end = []
to_list (item v vs) = v ∷ to_list vs

unfoldable pub to_object : Fields → Object
to_object done = []
to_object (field k v fs) = (k, v) ∷ to_object fs

-- `value == nil || value == ""`, where `value` is an `interface{}`.
abbrev pub is_empty : Value → Bool
is_empty nil = true
is_empty (string s) = s == ""
is_empty _ = false

-- `reflect.DeepEqual`: equal types and equal values. Floats are compared by `==`, as parameter.
module _ (float_eq : Float64 → Float64 → Bool) where
  -- The value of a key, found in another map and passed to a test.
  abbrev holds_at : (Value → Bool) → String → Fields → Bool
  holds_at p k done = false
  holds_at p k (field j w fs) = if j == k then p w else holds_at p k fs

  abbrev size_fields : Fields → ℕ
  size_fields done = 0
  size_fields (field k v fs) = ℕ.suc (size_fields fs)

  unfoldable mutual
    pub deep_equal : Value → Value → Bool
    deep_equal nil nil = true
    deep_equal (bool true) (bool b) = b
    deep_equal (bool false) (bool b) = if b then false else true
    deep_equal (string s) (string t) = s == t
    deep_equal (int a) (int b) = eq_ℤ a b
    deep_equal (int32 a) (int32 b) = eq_ℤ a b
    deep_equal (int64 a) (int64 b) = eq_ℤ a b
    deep_equal (uint64 a) (uint64 b) = nat_eq a b
    deep_equal (float32 a) (float32 b) = nat_eq a b
    deep_equal (float64 x) (float64 y) = float_eq x y
    deep_equal (array xs) (array ys) = deep_equal_items xs ys
    deep_equal (object fs) (object gs) =
        nat_eq (size_fields fs) (size_fields gs) && deep_equal_fields fs gs
    deep_equal (opaque a) (opaque b) = nat_eq a b
    deep_equal _ _ = false

    deep_equal_items : Values → Values → Bool
    deep_equal_items end end = true
    deep_equal_items (item x xs) (item y ys) = deep_equal x y && deep_equal_items xs ys
    deep_equal_items _ _ = false

    deep_equal_fields : Fields → Fields → Bool
    deep_equal_fields done gs = true
    deep_equal_fields (field k v fs) gs =
        holds_at (λ w. deep_equal v w) k gs && deep_equal_fields fs gs
