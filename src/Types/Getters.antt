-- ===== src/Types/Getters.antt =====
-- types.go: the typed getters of `configBase`. Each returns its value and the parameter names
-- that it passed to `LogExposure`.
use statsig_go_sdk.Prelude.{String, Bool, Option, none, some, List, [], ◌∷◌, if◌then◌else◌}
use statsig_go_sdk.Dict.{lookup}
use statsig_go_sdk.Value.{Float64, Value, bool, string, float64, array, object, Values, Fields}
use statsig_go_sdk.Types.{ConfigBase}

-- `logExposure`
unfoldable pub log_exposure : ConfigBase → String → List String
log_exposure c parameter_name = if c.has_log_exposure then parameter_name ∷ [] else []

-- The type switches.
abbrev pub as_string : Value → Option String
as_string (string s) = some s
as_string _ = none

abbrev pub as_number : Value → Option Float64
as_number (float64 x) = some x
as_number _ = none

abbrev pub as_bool : Value → Option Bool
as_bool (bool b) = some b
as_bool _ = none

abbrev pub as_slice : Value → Option Values
as_slice (array xs) = some xs
as_slice _ = none

abbrev pub as_map : Value → Option Fields
as_map (object fs) = some fs
as_map _ = none

module _ {A : Type 0} (as_type : Value → Option A) where
  abbrev pub typed : ConfigBase → String → A → Option A → A × List String
  typed d key fallback none = (fallback, [])
  typed d key fallback (some v) = (v, log_exposure d key)

  abbrev pub found : ConfigBase → String → A → Option Value → A × List String
  found d key fallback none = (fallback, [])
  found d key fallback (some v) = typed d key fallback (as_type v)

  -- The body that the five getters share, at the type that the switch asks for.
  unfoldable pub get_typed : ConfigBase → String → A → A × List String
  get_typed d key fallback = found d key fallback (lookup key d.value)

unfoldable pub get_string : ConfigBase → String → String → String × List String
unfolding get_typed
get_string = get_typed as_string

unfoldable pub get_number : ConfigBase → String → Float64 → Float64 × List String
unfolding get_typed
get_number = get_typed as_number

unfoldable pub get_bool : ConfigBase → String → Bool → Bool × List String
unfolding get_typed
get_bool = get_typed as_bool

unfoldable pub get_slice : ConfigBase → String → Values → Values × List String
unfolding get_typed
get_slice = get_typed as_slice

unfoldable pub get_map : ConfigBase → String → Fields → Fields × List String
unfolding get_typed
get_map = get_typed as_map
