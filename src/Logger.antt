-- ===== src/Logger.antt =====
-- logger.go: the buffer of events, the exposures that are logged, and the flushes. A batch that is
-- sent is an effect, with whether the caller waits for it; the transport's answer is dropped.
pub mod Buffer
pub mod Flush
pub mod Flushes
pub mod Privacy
use statsig_go_sdk.Prelude.{
  ℕ, String, Bool, true, false, not, ◌&&◌, Option, none, some, List, [], ◌∷◌, ◌++◌, ◌==◌, leb,
  length, is_some, or_default, if◌then◌else◌,
}
use statsig_go_sdk.Prelude.Int.{ℤ, pos, eq_ℤ}
use statsig_go_sdk.Dict.{Dict, lookup, insert}
use statsig_go_sdk.Types.{User, Event, ConfigBase}
use statsig_go_sdk.Store.State.{
  EvaluationReason, EvaluationDetails, network, bootstrap, local_override, unrecognized,
  uninitialized, data_adapter,
}
use statsig_go_sdk.Evaluator.Result.{EvalResult, Exposure}
use statsig_go_sdk.Evaluator.Condition.{format_bool}
use statsig_go_sdk.Diagnostics.{
  Marker, DiagnosticsBase, DiagnosticsContext, initialize, config_sync, api_call, Diagnostics,
  serialize_with_sampling, clear_markers,
}

pub record ExposureEvent : Type 0 where
  pub event_name : String
  pub user : User
  pub value : String
  pub metadata : Dict String
  pub secondary_exposures : List Exposure
  pub time : ℤ

pub record DiagnosticsEvent : Type 0 where
  pub event_name : String
  pub context : DiagnosticsContext
  pub markers : List Marker
  pub time : ℤ

-- What the buffer holds.
pub data LogEvent : Type 0 where
  custom : Event → LogEvent
  exposure : ExposureEvent → LogEvent
  diagnostic : DiagnosticsEvent → LogEvent

-- A call of `sendEvents`: the batch, and whether the caller waits.
pub record Batch : Type 0 where
  pub events : List LogEvent
  pub waits : Bool

-- `StatsigLoggerOptions`
pub record LoggerOptions : Type 0 where
  pub disable_init_diagnostics : Bool
  pub disable_sync_diagnostics : Bool
  pub disable_api_diagnostics : Bool

-- `logger`; `ticking` says whether `tick` runs.
pub record Logger : Type 0 where
  pub events : List LogEvent
  pub max_events : ℕ
  pub ticking : Bool
  pub options : LoggerOptions

-- `newLogger`
abbrev pub new_logger : ℕ → LoggerOptions → Logger
new_logger max_buffer_size options = record {
  events = [];
  max_events = if leb 1 max_buffer_size then max_buffer_size else 1000;
  ticking = true;
  options = options;
}

-- `flushInternal`
unfoldable pub flush_internal : Logger → Bool → Logger × List Batch
flush_internal l closing =
    let stopped = record l { ticking = l.ticking && not closing } in
    elim l.events [
      | [] ↦ (stopped, [])
      | event ∷ events ↦
          (record stopped { events = [] }, record { events = event ∷ events; waits = closing } ∷ [])
    ]

-- `logInternal`
unfoldable pub log_internal : Logger → LogEvent → Logger × List Batch
unfolding flush_internal
log_internal l event =
    let added = record l { events = l.events ++ (event ∷ []) } in
    if leb added.max_events (length added.events) then flush_internal added false else (added, [])

-- `evt.User.PrivateAttributes = nil`
abbrev pub without_private : User → User
without_private user = record user { private_attributes = [] }

abbrev pub time_or_now : ℤ → ℤ → ℤ
time_or_now now time = if eq_ℤ time (pos 0) then now else time

-- The string of an `evaluationReason`.
abbrev pub reason_text : EvaluationReason → String
reason_text network = "Network"
reason_text bootstrap = "Bootstrap"
reason_text local_override = "LocalOverride"
reason_text unrecognized = "Unrecognized"
reason_text uninitialized = "Uninitialized"
reason_text data_adapter = "DataAdapter"

-- What the logger is given at a call: `getUnixMilli()`, and `fmt.Sprint` of an `int64`.
module _ (now : ℤ) (format_int : ℤ → String) where
  -- `logCustom`
  unfoldable pub log_custom : Logger → Event → Logger × List Batch
  unfolding log_internal
  log_custom l event = log_internal l (
      custom
        (record event { user = without_private event.user; time = time_or_now now event.time }))

  -- `logExposure`
  unfoldable pub log_exposure_event : Logger → ExposureEvent → Logger × List Batch
  unfolding log_internal
  log_exposure_event l event = log_internal l (
      exposure
        (record event { user = without_private event.user; time = time_or_now now event.time }))

  abbrev pub add_details : Option EvaluationDetails → Dict String → Dict String
  add_details none metadata = metadata
  add_details (some details) metadata = insert "serverTime" (format_int details.server_time) (
      insert "initTime" (format_int details.init_time) (
        insert "configSyncTime" (format_int details.config_sync_time)
          (insert "reason" (reason_text details.reason) metadata)))

  abbrev pub add_manual : Bool → Dict String → Dict String
  add_manual is_manual metadata =
      if is_manual then insert "isManualExposure" "true" metadata else metadata

  -- `logExposureWithEvaluationDetails`, with the event that its callers build.
  unfoldable pub log_exposure_with_evaluation_details :
      Logger
      → String
      → User
      → Dict String
      → List Exposure
      → Option EvaluationDetails
      → Logger × List Batch
  unfolding log_exposure_event
  log_exposure_with_evaluation_details l name user metadata exposures details =
      log_exposure_event l (record {
        event_name = name;
        user = user;
        value = "";
        metadata = add_details details metadata;
        secondary_exposures = exposures;
        time = pos 0;
      })

  -- `logGateExposure`
  unfoldable pub log_gate_exposure :
      Logger
      → User
      → String
      → Bool
      → String
      → List Exposure
      → Option EvaluationDetails
      → Bool
      → Logger × List Batch
  unfolding log_exposure_with_evaluation_details
  log_gate_exposure l user gate_name value rule_id exposures details is_manual =
      log_exposure_with_evaluation_details l "statsig::gate_exposure" user
        (add_manual is_manual
          (("gate", gate_name) ∷ ("gateValue", format_bool value) ∷ ("ruleID", rule_id) ∷ []))
        exposures details

  -- `logConfigExposure`
  unfoldable pub log_config_exposure :
      Logger
      → User
      → String
      → String
      → List Exposure
      → Option EvaluationDetails
      → Bool
      → Logger × List Batch
  unfolding log_exposure_with_evaluation_details
  log_config_exposure l user config_name rule_id exposures details is_manual =
      log_exposure_with_evaluation_details l "statsig::config_exposure" user
        (add_manual is_manual (("config", config_name) ∷ ("ruleID", rule_id) ∷ [])) exposures
        details

  abbrev pub is_explicit : EvalResult → String → Bool
  is_explicit res parameter = or_default (lookup parameter res.explicit_parameters) false

  -- `logLayerExposure`
  unfoldable pub log_layer_exposure :
      Logger
      → User
      → ConfigBase
      → String
      → EvalResult
      → Option EvaluationDetails
      → Bool
      → Logger × List Batch
  unfolding log_exposure_with_evaluation_details
  log_layer_exposure l user config parameter res details is_manual =
      let explicit = is_explicit res parameter in
      log_exposure_with_evaluation_details l "statsig::layer_exposure" user
        (add_manual is_manual (
          ("config", config.name)
          ∷ ("ruleID", config.rule_id)
          ∷ ("allocatedExperiment", if explicit then res.config_delegate else "")
          ∷ ("parameterName", parameter)
          ∷ ("isExplicitParameter", format_bool explicit)
          ∷ []))
        (if explicit then res.secondary_exposures else res.undelegated_secondary_exposures) details
