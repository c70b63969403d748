-- ===== src/Evaluator/UserFields.antt =====
-- evaluator.go: the values that a condition reads from the user, and the unit that is hashed.
use Prim.Native.String.{◌++◌ as ◌<>◌}
use statsig_go_sdk.Prelude.{
  String, ◌&&◌, ◌||◌, not, Option, none, some, List, [], ◌∷◌, ◌==◌, or_default, if◌then◌else◌,
}
use statsig_go_sdk.Dict.{lookup}
use statsig_go_sdk.Value.{Value, nil, string, is_empty}
use statsig_go_sdk.Runtime.{Runtime, UserAgentClient, to_lower}
use statsig_go_sdk.Types.{User}

-- The first of two lookups that finds its key.
abbrev pub or_else {ℓ} : {A : Type ℓ} → Option A → Option A → Option A
or_else none b = b
or_else (some a) b = some a

-- `removeEmptyStrings`
unfoldable pub remove_empty_strings : List String → List String
remove_empty_strings [] = []
remove_empty_strings (s ∷ ss) =
    let rest = remove_empty_strings ss in if s == "" then rest else s ∷ rest

-- `strings.Join(…, ".")`
unfoldable pub join_dots : List String → String
join_dots [] = ""
join_dots (s ∷ []) = s
join_dots (s ∷ next ∷ ss) = s <> "." <> join_dots (next ∷ ss)

module _ (r : Runtime) where
  -- `getUnitID`
  unfoldable pub get_unit_id : User → String → String
  get_unit_id user id_type =
      if not (id_type == "") && not (to_lower r id_type == "userid")
      then or_default
          (or_else (lookup id_type user.custom_ids) (lookup (to_lower r id_type) user.custom_ids))
          ""
      else user.user_id

  -- The switch of `getFromUser` over the fields of the user.
  abbrev top_level_field : User → String → Value
  top_level_field user name =
      if name == "userid" || name == "user_id"
      then string user.user_id
      else if name == "email"
      then string user.email
      else if name == "ip" || name == "ipaddress" || name == "ip_address"
      then string user.ip_address
      else if name == "useragent" || name == "user_agent"
      then if user.user_agent == "" then nil else string user.user_agent
      else if name == "country"
      then string user.country
      else if name == "locale"
      then string user.locale
      else if name == "appversion" || name == "app_version"
      then string user.app_version
      else nil

  abbrev custom_field : User → String → Option Value
  custom_field user field = or_else (lookup field user.custom) (
      or_else (lookup (to_lower r field) user.custom) (
        or_else (lookup field user.private_attributes)
          (lookup (to_lower r field) user.private_attributes)))

  -- `getFromUser`
  unfoldable pub get_from_user : User → String → Value
  get_from_user user field =
      let value = top_level_field user (to_lower r field) in
      if is_empty value then or_default (custom_field user field) value else value

  -- `getFromEnvironment`: the lower-case key is read last, and wins.
  unfoldable pub get_from_environment : User → String → String
  get_from_environment user field =
      or_default
        (or_else (lookup (to_lower r field) user.statsig_environment)
          (lookup field user.statsig_environment))
        ""

  abbrev agent_field : UserAgentClient → String → String
  agent_field client name =
      if name == "os_name" || name == "osname"
      then client.os_family
      else if name == "os_version" || name == "osversion"
      then join_dots (
          remove_empty_strings
            (client.os_major ∷ client.os_minor ∷ client.os_patch ∷ client.os_patch_minor ∷ []))
      else if name == "browser_name" || name == "browsername"
      then client.browser_family
      else if name == "browser_version" || name == "browserversion"
      then join_dots (
          remove_empty_strings
            (client.browser_major ∷ client.browser_minor ∷ client.browser_patch ∷ []))
      else ""

  abbrev parsed_agent : Value → String → String
  parsed_agent (string ua) field = agent_field (r.parse_user_agent ua) (to_lower r field)
  parsed_agent _ field = ""

  -- `getFromUserAgent`
  unfoldable pub get_from_user_agent : User → String → String
  get_from_user_agent user field = parsed_agent (get_from_user user "useragent") field

  abbrev looked_up : Value → String
  looked_up (string ip) = or_default (r.lookup_ip ip) ""
  looked_up _ = ""

  -- `getFromIP`
  unfoldable pub get_from_ip : User → String → String
  get_from_ip user field =
      if to_lower r field == "country" then looked_up (get_from_user user "ip") else ""
