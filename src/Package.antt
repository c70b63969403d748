-- ===== src/Package.antt =====
-- statsig.go: the functions of the package on the global instance, and the creation of a client in
-- client.go. The store that the creation loads and the markers that it leaves are arguments, and so
-- is whether the client is there before the timeout of the initialization.
pub mod Calls
pub mod Laws
pub mod Uninitialized
use Prim.Native.String.{◌++◌}
use statsig_go_sdk.Prelude.{
  ℕ, String, Bool, true, false, not, ◌&&◌, Option, none, some, List, [], ◌∷◌, ◌==◌, if◌then◌else◌,
}
use statsig_go_sdk.Prelude.Int.{ℤ}
use statsig_go_sdk.Text.{codes, has_prefix}
use statsig_go_sdk.Value.{Object}
use statsig_go_sdk.Runtime.{Runtime}
use statsig_go_sdk.Types.{User, Event}
use statsig_go_sdk.Store.State.{Store}
use statsig_go_sdk.Evaluator.Result.{Outcome, ok, ◌>>=◌}
use statsig_go_sdk.Diagnostics.{Diagnostics, DiagnosticsContext}
use statsig_go_sdk.ErrorBoundary.{new_error_boundary}
use statsig_go_sdk.Logger.{LoggerOptions, new_logger}
use statsig_go_sdk.OutputLogger.{
  OutputLoggerOptions, GlobalLogger, initialize_global_output_logger, Output, log, log_step,
}
use statsig_go_sdk.Client.{Environment, Server, Client}
use statsig_go_sdk.Client.Sessions.{Request, Session, serve}

-- `Options`, as far as a client and this package read them. The options of the store are those of
-- the store that it loads.
pub record Options : Type 0 where
  pub environment : Environment
  pub local_mode : Bool
  pub logging_max_buffer_size : ℕ
  pub has_init_timeout : Bool
  pub output_logger_options : OutputLoggerOptions
  pub statsig_logger_options : LoggerOptions

-- `&Options{}`
abbrev pub default_options : Options
default_options = record {
  environment = record { tier = ""; params = [] };
  local_mode = false;
  logging_max_buffer_size = 0;
  has_init_timeout = false;
  output_logger_options = record {
    has_log_callback = false;
    enable_debug = false;
    disable_init_diagnostics = false;
    disable_sync_diagnostics = false;
  };
  statsig_logger_options = record {
    disable_init_diagnostics = false;
    disable_sync_diagnostics = false;
    disable_api_diagnostics = false;
  };
}

-- `NewClientWithOptions`, around the store it loads; `none` is the panic on an invalid key.
unfoldable pub new_client_with_options : String → Options → Store → Option Client
new_client_with_options sdk_key options store =
    if not options.local_mode && not (has_prefix (codes sdk_key) (codes "secret"))
    then none
    else some (record {
      evaluator = record {
        store = store;
        gate_overrides = [];
        config_overrides = [];
        layer_overrides = [];
      };
      logger = new_logger options.logging_max_buffer_size options.statsig_logger_options;
      boundary = new_error_boundary;
      environment = options.environment;
    })

-- A client that has not served yet, with the markers of its creation.
abbrev pub fresh_session : Client → Diagnostics → Session
fresh_session c d = record { client = c; layers = []; diagnostics = d; batches = []; reports = [] }

-- `instance` and `global.logger`
pub record Globals : Type 0 where
  pub instance : Option Session
  pub logger : GlobalLogger

abbrev pub is_initialized : Globals → Bool
is_initialized g = elim g.instance [ none ↦ false | some s ↦ true ]

-- How a function of the package ends.
pub data Ending : Type 0 where
  returned : Ending
  panicked : String → Ending
  -- a panic of a goroutine, which ends the program
  crashed : Ending

abbrev pub invalid_key : String
invalid_key = "Must provide a valid SDK key."

-- The end of the creation of a client in the call itself, and in a goroutine beside a timer.
abbrev pub created : Globals → Diagnostics → Option Client → Globals × List Output × Ending
created g d none = (g, [], panicked invalid_key)
created g d (some c) = (record g { instance = some (fresh_session c d) }, [], returned)

abbrev pub created_in_time :
    String → Globals → Diagnostics → Bool → Option Client → Globals × List Output × Ending
created_in_time timestamp g d false client =
    (g, log_step timestamp g.logger "Initialize" "Timed out", returned)
created_in_time timestamp g d true none = (g, [], crashed)
created_in_time timestamp g d true (some c) =
    (record g { instance = some (fresh_session c d) }, [], returned)

-- `InitializeWithOptions`, and `Initialize` with the default options.
unfoldable pub initialize_with_options :
    String
    → Globals
    → String
    → Options
    → Store
    → Diagnostics
    → Bool
    → Globals × List Output × Ending
unfolding new_client_with_options log log_step
initialize_with_options timestamp g sdk_key options store d in_time =
    let g' = record g { logger = initialize_global_output_logger options.output_logger_options } in
    if is_initialized g'
    then (g', log g'.logger "Statsig is already initialized." none, returned)
    else if options.has_init_timeout
    then created_in_time timestamp g' d in_time (new_client_with_options sdk_key options store)
    else created g' d (new_client_with_options sdk_key options store)

unfoldable pub initialize :
    String → Globals → String → Store → Diagnostics → Globals × List Output × Ending
unfolding initialize_with_options
initialize timestamp g sdk_key store d =
    initialize_with_options timestamp g sdk_key default_options store d true

-- The functions that pass a call on to the instance.
pub data PublicCall : Type 0 where
  check_gate check_gate_with_exposure_logging_disabled : User → String → PublicCall
  manually_log_gate_exposure : User → String → PublicCall
  get_config get_config_with_exposure_logging_disabled : User → String → PublicCall
  manually_log_config_exposure : User → String → PublicCall
  override_gate : String → Bool → PublicCall
  override_config override_layer : String → Object → PublicCall
  get_experiment get_experiment_with_exposure_logging_disabled : User → String → PublicCall
  manually_log_experiment_exposure : User → String → PublicCall
  get_layer get_layer_with_exposure_logging_disabled : User → String → PublicCall
  manually_log_layer_parameter_exposure : User → String → String → PublicCall
  log_event : Event → PublicCall
  log_immediate : List Event → PublicCall
  get_client_initialize_response : User → PublicCall
  get_client_initialize_response_for_target_app : User → String → PublicCall

-- The name in the message of the panic.
unfoldable pub call_name : PublicCall → String
call_name (check_gate _ _) = "CheckGate"
call_name (check_gate_with_exposure_logging_disabled _ _) = "CheckGateWithExposureLoggingDisabled"
call_name (manually_log_gate_exposure _ _) = "ManuallyLogGateExposure"
call_name (get_config _ _) = "GetConfig"
call_name (get_config_with_exposure_logging_disabled _ _) = "GetConfigWithExposureLoggingDisabled"
call_name (manually_log_config_exposure _ _) = "ManuallyLogConfigExposure"
call_name (override_gate _ _) = "OverrideGate"
call_name (override_config _ _) = "OverrideConfig"
call_name (override_layer _ _) = "OverrideLayer"
call_name (get_experiment _ _) = "GetExperiment"
call_name (get_experiment_with_exposure_logging_disabled _ _) =
    "GetExperimentWithExposureLoggingDisabled"
call_name (manually_log_experiment_exposure _ _) = "ManuallyLogExperimentExposure"
call_name (get_layer _ _) = "GetLayer"
call_name (get_layer_with_exposure_logging_disabled _ _) = "GetLayerWithExposureLoggingDisabled"
call_name (manually_log_layer_parameter_exposure _ _ _) = "ManuallyLogLayerParameterExposure"
call_name (log_event _) = "LogEvent"
call_name (log_immediate _) = "LogImmediate"
call_name (get_client_initialize_response _) = "GetClientInitializeResponse"
call_name (get_client_initialize_response_for_target_app _ _) =
    "GetClientInitializeResponseForTargetApp"

-- What the instance is asked for. Events that are sent at once change nothing in it.
unfoldable pub request_of : PublicCall → Option Request
request_of (check_gate user gate) = some (Request.check_gate true user gate)
request_of (check_gate_with_exposure_logging_disabled user gate) =
    some (Request.check_gate false user gate)
request_of (manually_log_gate_exposure user config) = some (Request.log_gate user config)
request_of (get_config user config) = some (Request.get_config true user config)
request_of (get_config_with_exposure_logging_disabled user config) =
    some (Request.get_config false user config)
request_of (manually_log_config_exposure user config) = some (Request.log_config user config)
request_of (override_gate gate val) = some (Request.set_gate gate val)
request_of (override_config config val) = some (Request.set_config config val)
request_of (override_layer layer val) = some (Request.set_layer layer val)
request_of (get_experiment user experiment) =
    some (Request.get_experiment_config true user experiment)
request_of (get_experiment_with_exposure_logging_disabled user experiment) =
    some (Request.get_experiment_config false user experiment)
request_of (manually_log_experiment_exposure user experiment) =
    some (Request.log_config user experiment)
request_of (get_layer user layer) = some (Request.get_layer true user layer)
request_of (get_layer_with_exposure_logging_disabled user layer) =
    some (Request.get_layer false user layer)
request_of (manually_log_layer_parameter_exposure user layer parameter) =
    some (Request.log_layer_parameter user layer parameter)
request_of (log_event event) = some (Request.log_custom_event event)
request_of (log_immediate events) = none
request_of (get_client_initialize_response user) = some (Request.get_initialize_response user "")
request_of (get_client_initialize_response_for_target_app user client_key) =
    some (Request.get_initialize_response user client_key)
