-- ===== src/Client/UserEnvironment.antt =====
-- The environment of a normalized user.
use statsig_go_sdk.Prelude.{
  String, ◌≡◌, not, ◌&&◌, Option, none, some, [], ◌==◌, arith, if◌then◌else◌,
}
use statsig_go_sdk.Dict.{lookup, insert, merge, NodupKeys, lookup-merge, lookup-insert, lookup-nil}
use statsig_go_sdk.Types.{User}
use statsig_go_sdk.Client.{Environment, normalize_user}

abbrev pub or_else {ℓ} : {A : Type ℓ} → Option A → Option A → Option A
or_else (some a) other = some a
or_else none other = other

-- What the options of the client say of a key: the tier, if there is one, before the parameters.
abbrev pub client_value : Environment → String → Option String
client_value env key =
    if "tier" == key && not (env.tier == "") then some env.tier else lookup key env.params

-- A key of the environment has the user's own value; if the user has none, it has the client's.
pub normalize_user-lookup :
    (env : Environment) (user : User) (key : String)
    → NodupKeys env.params
    → NodupKeys user.statsig_environment
    → lookup key (normalize_user env user).statsig_environment
      ≡ or_else (lookup key user.statsig_environment) (client_value env key)
unfolding normalize_user
normalize_user-lookup env user key params own = ground (
  arith,
  lookup-merge key (merge [] env.params) user.statsig_environment own,
  lookup-merge key (insert "tier" env.tier (merge [] env.params)) user.statsig_environment own,
  lookup-merge key [] env.params params,
  lookup-nil {0} {V = String} key,
  lookup-insert "tier" key env.tier (merge [] env.params),
)
