-- ===== src/Diagnostics/Markers.antt =====
-- diagnostics.go: how a marker is built, and the step that it writes to the output when it is
-- marked. `none` is a dereference of a nil field.
use statsig_go_sdk.Prelude.{ℕ, String, Bool, Option, none, some, ◌==◌, if◌then◌else◌}
use statsig_go_sdk.Prelude.Int.{ℤ, pos}
use statsig_go_sdk.Diagnostics.{
  DiagnosticsContext, initialize, config_sync, api_call, Marker, Diagnostics, mark,
}

-- `DiagnosticsKey`, `DiagnosticsStep` and `DiagnosticsAction`: the constants.
pub data DiagnosticsKey : Type 0 where
  download_config_specs bootstrap get_id_list_sources get_id_list overall : DiagnosticsKey
  data_store_config_specs check_gate_api get_config_api get_layer_api : DiagnosticsKey

abbrev pub key_text : DiagnosticsKey → String
key_text download_config_specs = "download_config_specs"
key_text bootstrap = "bootstrap"
key_text get_id_list_sources = "get_id_list_sources"
key_text get_id_list = "get_id_list"
key_text overall = "overall"
key_text data_store_config_specs = "data_store_config_specs"
key_text check_gate_api = "check_gate"
key_text get_config_api = "get_config"
key_text get_layer_api = "get_layer"

pub data DiagnosticsStep : Type 0 where
  network_request fetch process : DiagnosticsStep

abbrev pub step_text : DiagnosticsStep → String
step_text network_request = "network_request"
step_text fetch = "fetch"
step_text process = "process"

pub data DiagnosticsAction : Type 0 where
  start end : DiagnosticsAction

abbrev pub action_text : DiagnosticsAction → String
action_text start = "start"
action_text end = "end"

-- A fresh marker with its key: `downloadConfigSpecs` to `getLayer`.
unfoldable pub keyed : DiagnosticsKey → Marker
keyed key = record {
  key = key_text key;
  step = none;
  action = none;
  timestamp = pos 0;
  success = none;
  status_code = none;
  sdk_region = none;
  id_list_count = none;
  url = none;
}

-- `networkRequest`, `fetch` and `process`
unfoldable pub with_step : DiagnosticsStep → Marker → Marker
with_step step m = record m { step = some (step_text step) }

-- `start` and `end`
unfoldable pub with_action : DiagnosticsAction → Marker → Marker
with_action action m = record m { action = some (action_text action) }

-- `success`, `statusCode`, `sdkRegion`, `idListCount` and `url`
abbrev pub with_success : Bool → Marker → Marker
with_success val m = record m { success = some val }

abbrev pub with_status_code : ℤ → Marker → Marker
with_status_code val m = record m { status_code = some val }

abbrev pub with_sdk_region : String → Marker → Marker
with_sdk_region val m = record m { sdk_region = some val }

abbrev pub with_id_list_count : ℕ → Marker → Marker
with_id_list_count val m = record m { id_list_count = some val }

abbrev pub with_url : String → Marker → Marker
with_url val m = record m { url = some val }

-- `initialize().k…mark()`, `configSync().k…mark()` or `api().k…mark()`
unfoldable pub mark_in : DiagnosticsContext → Diagnostics → Marker → ℤ → Diagnostics
unfolding mark
mark_in initialize d m now = record d { init_diagnostics = mark d.init_diagnostics m now }
mark_in config_sync d m now = record d { sync_diagnostics = mark d.sync_diagnostics m now }
mark_in api_call d m now = record d { api_diagnostics = mark d.api_diagnostics m now }

-- The inner branches of `logProcess`: on the success of an end, on the action and on the step.
abbrev pub on_success : Option Bool → String → String → Option String
on_success none done failed = none
on_success (some success) done failed = some (if success then done else failed)

abbrev pub on_action : Option String → String → Option String → Option String
on_action none started ended = none
on_action (some action) started ended =
    if action == "start" then some started else if action == "end" then ended else some ""

abbrev pub on_step : Option String → String → Option String → Option String → Option String
on_step none first first_text process_text = none
on_step (some step) first first_text process_text =
    if step == first then first_text else if step == "process" then process_text else some ""

-- `logProcess` of a marker: its message.
unfoldable pub log_process : Marker → Option String
log_process m =
    if m.key == "overall"
    then on_action m.action "Starting..." (some "Done")
    else if m.key == "download_config_specs"
    then on_step m.step "network_request"
        (on_action m.action "Loading specs from network..." (
          on_success m.success "Done loading specs from network"
            "Failed to load specs from network"))
        (on_action m.action "Processing specs from network..." (
          on_success m.success "Done processing specs from network"
            "No updates to specs from network"))
    else if m.key == "data_store_config_specs"
    then on_step m.step "fetch"
        (on_action m.action "Loading specs from adapter..." (
          on_success m.success "Done loading specs from adapter"
            "Failed to load specs from adapter"))
        (on_action m.action "Processing specs from adapter..." (
          on_success m.success "Done processing specs from adapter"
            "No updates to specs from adapter"))
    else some ""

-- The process that `logProcess` of a context names.
abbrev pub process_of : DiagnosticsContext → String
process_of initialize = "Initialize"
process_of config_sync = "Sync"
process_of api_call = ""
