-- ===== src/Store/Sync.antt =====
-- store.go: the fetches of config specs, the sync errors, the creation of a store and the rounds
-- of its two polling loops. Calls of the outside are effects, in their order.
pub mod Frame
pub mod Failures
pub mod Honest
pub mod Reach
pub mod Startup
pub mod Refinement
pub mod Rounds
pub mod Liveness
use statsig_go_sdk.Prelude.{
  ℕ, suc, ◌+◌, ◌*◌, ◌<◌, String, ◌≡◌, Bool, true, false, ◌&&◌, Option, none, some, List, [], ◌∷◌,
  ◌++◌, ◌==◌, ltb, is_some, or_default, if◌then◌else◌,
}
use statsig_go_sdk.Prelude.Int.{ℤ, pos, eq_ℤ}
use statsig_go_sdk.Dict.{Dict}
use statsig_go_sdk.Runtime.{Runtime}
use statsig_go_sdk.Spec.{DownloadConfigSpecResponse}
use statsig_go_sdk.Store.State.{
  EvaluationReason, network, bootstrap, data_adapter, uninitialized, Store, empty_store,
}
use statsig_go_sdk.Store.Specs.{ConfigSpecs, raw, decoded, process_config_specs}
use statsig_go_sdk.Store.IdLists.{ServerList, Download, sync_id_lists}

pub data Effect : Type 0 where
  -- `errorBoundary.logException`
  log_exception : Effect
  -- `rulesUpdatedCallback`
  rules_updated : String → ℤ → Effect
  -- `dataAdapter.Set`
  save_specs : String → Effect

-- What the store is created with. An interval is in nanoseconds.
pub record Setup : Type 0 where
  pub config_sync_interval : ℕ
  pub bootstrap_values : String
  pub has_callback : Bool
  pub has_adapter : Bool

-- The answer to a request for config specs; `failed` is an error, or no response.
pub data Answer : Type 0 where
  failed : Answer
  received : DownloadConfigSpecResponse → Answer

-- `syncOutdatedMax`: two minutes.
abbrev pub sync_outdated_max : ℕ
sync_outdated_max = 120000000000

-- `handleSyncError`
unfoldable pub handle_sync_error : Setup → Store → Bool → Store × List Effect
handle_sync_error setup s is_cold_start =
    let count = s.sync_failure_count + 1 in
    if is_cold_start
    then (record s { sync_failure_count = count }, log_exception ∷ [])
    else if ltb sync_outdated_max (count * setup.config_sync_interval)
    then (record s { sync_failure_count = 0 }, log_exception ∷ [])
    else (record s { sync_failure_count = count }, [])

-- The reason is set once specs are accepted.
abbrev pub with_reason : EvaluationReason → Store × Bool → Store
with_reason reason (s, success) = if success then record s { init_reason = reason } else s

module _ (r : Runtime) (setup : Setup) where
  -- `saveConfigSpecsToAdapter`
  abbrev pub save_config_specs : DownloadConfigSpecResponse → List Effect
  save_config_specs specs = elim (r.marshal_specs specs) [
    | none ↦ []
    | some text ↦ save_specs text ∷ []
  ]

  abbrev pub notify : DownloadConfigSpecResponse → List Effect
  notify specs =
      if setup.has_callback
      then rules_updated (or_default (r.marshal_specs specs) "") specs.time ∷ []
      else []

  abbrev pub accepted : DownloadConfigSpecResponse → Store × Bool → Store × List Effect
  accepted specs (s, success) =
      if success
      then (
        record s { init_reason = network },
        notify specs ++ (if setup.has_adapter then save_config_specs specs else []),
      )
      else (s, [])

  -- `fetchConfigSpecsFromServer`
  unfoldable pub fetch_config_specs_from_server : Store → Bool → Answer → Store × List Effect
  fetch_config_specs_from_server s is_cold_start failed = handle_sync_error setup s is_cold_start
  fetch_config_specs_from_server s is_cold_start (received specs) =
      accepted specs (process_config_specs r s (decoded specs))

  -- `fetchConfigSpecsFromAdapter`; `none` is a panic of `dataAdapter.Get`, which is recovered.
  unfoldable pub fetch_config_specs_from_adapter : Store → Option String → Store
  fetch_config_specs_from_adapter s none = s
  fetch_config_specs_from_adapter s (some text) =
      with_reason data_adapter (process_config_specs r s (raw text))

  -- The first attempt of `newStoreInternal`, without the network.
  unfoldable pub load_locally : Store → Option String → Store
  load_locally s got =
      if setup.has_adapter
      then fetch_config_specs_from_adapter s got
      else if setup.bootstrap_values == ""
      then s
      else with_reason bootstrap (process_config_specs r s (raw setup.bootstrap_values))

  abbrev pub fetch_if_unsynced : Store → Answer → Store × List Effect
  fetch_if_unsynced s answer =
      if eq_ℤ s.last_sync_time (pos 0)
      then fetch_config_specs_from_server s true answer
      else (s, [])

  -- `newStoreInternal` up to the sync of the ID lists.
  unfoldable pub load_config_specs : Option String → Answer → Store × List Effect
  load_config_specs got answer =
      let (s, effects) = fetch_if_unsynced (load_locally empty_store got) answer in
      (record s { initial_sync_time = s.last_sync_time }, effects)

  abbrev pub initialized : Option Store → Option Store
  initialized none = none
  initialized (some s) = some (record s { initialized_id_lists = true })

  -- `newStoreInternal`
  unfoldable pub new_store_internal :
      Option String
      → Answer
      → (String → ℕ → Download)
      → Option (Dict ServerList)
      → Option Store × List Effect
  new_store_internal got answer remote servers =
      let (s, effects) = load_config_specs got answer in
      (initialized (sync_id_lists remote s servers), effects)

  -- A round of `pollForRulesetChanges`: whether the adapter is to be asked, and what the adapter or
  -- the server then says.
  unfoldable pub poll_for_ruleset_changes :
      Store → Bool → Option String → Answer → Store × List Effect
  poll_for_ruleset_changes s should_be_used got answer =
      if s.shutdown
      then (s, [])
      else if setup.has_adapter && should_be_used
      then (fetch_config_specs_from_adapter s got, [])
      else fetch_config_specs_from_server s false answer

-- A round of `pollForIDListChanges`.
unfoldable pub poll_for_id_list_changes :
    (String → ℕ → Download) → Store → Option (Dict ServerList) → Option Store
poll_for_id_list_changes remote s servers =
    if s.shutdown then some s else sync_id_lists remote s servers

-- `stopPolling`
unfoldable pub stop_polling : Store → Store
stop_polling s = record s { shutdown = true }
