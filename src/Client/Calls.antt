-- ===== src/Client/Calls.antt =====
-- client.go: the calls of a client. `getUnixMilli` and `fmt.Sprint` are arguments.
use statsig_go_sdk.Prelude.{
  ℕ, String, Bool, true, false, Option, none, some, List, [], ◌==◌, ltb, length, map, if◌then◌else◌,
}
use statsig_go_sdk.Prelude.Int.{ℤ}
use statsig_go_sdk.Runtime.{Runtime}
use statsig_go_sdk.Types.{User, Event, ConfigBase, new_config, new_layer, zero_config}
use statsig_go_sdk.Evaluator.Result.{EvalResult, Outcome, ok, ◌>>=◌}
use statsig_go_sdk.Evaluator.Api.{check_gate, get_config, get_layer}
use statsig_go_sdk.Store.Sync.{stop_polling}
use statsig_go_sdk.Diagnostics.{Diagnostics, DiagnosticsContext}
use statsig_go_sdk.InitializeResponse.Types.{InitializeResponse}
use statsig_go_sdk.InitializeResponse.{get_client_initialize_response}
use statsig_go_sdk.ErrorBoundary.{Captured}
use statsig_go_sdk.Logger.{
  LogEvent, custom, Batch, log_gate_exposure, log_config_exposure, log_layer_exposure, log_custom,
}
use statsig_go_sdk.Logger.Flush.{flush}
use statsig_go_sdk.Client.{
  normalize_user, verify_user, Server, fetch_gate, fetch_config_from_server, Logged, guarded,
  LayerHandle, empty_response, Client,
}

module _ (r : Runtime) (format_int : ℤ → String) (server : Server) (c : Client) (user : User) where
  abbrev pub normalized : User
  normalized = normalize_user c.environment user

  module _ (log_exposure : Bool) where
    abbrev pub gate_checked : String → EvalResult → Logged × Bool
    gate_checked gate res =
        if res.fetch_from_server
        then ((c.logger, []), (fetch_gate server normalized gate).value)
        else (
          (if log_exposure
              then log_gate_exposure r.now_milli format_int c.logger normalized gate res.pass res.id
                  res.secondary_exposures res.evaluation_details false
              else (c.logger, [])),
          res.pass,
        )

    -- `checkGateImpl`
    unfoldable pub check_gate_impl : String → Outcome (Captured Logged Bool)
    unfolding verify_user
    check_gate_impl gate = guarded false c.boundary c.logger (
        if verify_user user
        then (check_gate r c.evaluator normalized gate >>= λ res. ok (gate_checked gate res))
        else ok ((c.logger, []), false))

    abbrev pub config_checked : String → EvalResult → Logged × ConfigBase
    config_checked config res =
        if res.fetch_from_server
        then ((c.logger, []), (fetch_config_from_server server normalized config).config_value)
        else (
          (if log_exposure
              then log_config_exposure r.now_milli format_int c.logger normalized config res.id
                  res.secondary_exposures res.evaluation_details false
              else (c.logger, [])),
          res.config_value,
        )

    -- `getConfigImpl`
    unfoldable pub get_config_impl : String → Outcome (Captured Logged ConfigBase)
    unfolding verify_user
    get_config_impl config = guarded zero_config c.boundary c.logger (
        if verify_user user
        then (get_config r c.evaluator normalized config >>= λ res. ok (config_checked config res))
        else ok ((c.logger, []), new_config config none ""))

    -- The zero value of `Layer`: a read of it logs nothing.
    abbrev pub silent_layer : ConfigBase → LayerHandle
    silent_layer config = record { config = config; expose = λ l parameter. (l, []) }

    abbrev pub layer_checked : String → EvalResult → Logged × LayerHandle
    layer_checked layer evaluated =
        let res =
          if evaluated.fetch_from_server
          then fetch_config_from_server server normalized layer
          else evaluated in
        let config = new_layer layer (some res.config_value.value) res.config_value.rule_id true in
        (
          (c.logger, []),
          record {
            config = config;
            expose = λ l parameter.
                if log_exposure
                then log_layer_exposure r.now_milli format_int l normalized config parameter res
                    res.evaluation_details false
                else (l, []);
          },
        )

    -- `getLayerImpl`
    unfoldable pub get_layer_impl : String → Outcome (Captured Logged LayerHandle)
    unfolding verify_user
    get_layer_impl layer = guarded (silent_layer zero_config) c.boundary c.logger (
        if verify_user user
        then (get_layer r c.evaluator normalized layer >>= λ res. ok (layer_checked layer res))
        else ok ((c.logger, []), silent_layer (new_layer layer none "" false)))

  -- `ManuallyLogGateExposure`
  unfoldable pub manually_log_gate_exposure : String → Outcome {0} (Captured Logged Unit)
  unfolding verify_user
  manually_log_gate_exposure gate = guarded tt c.boundary c.logger (
      if verify_user user
      then (check_gate r c.evaluator normalized gate >>= λ res. ok (
        log_gate_exposure r.now_milli format_int c.logger normalized gate res.pass res.id
            res.secondary_exposures res.evaluation_details true,
        tt,
      ))
      else ok ((c.logger, []), tt))

  -- `ManuallyLogConfigExposure`
  unfoldable pub manually_log_config_exposure : String → Outcome {0} (Captured Logged Unit)
  unfolding verify_user
  manually_log_config_exposure config = guarded tt c.boundary c.logger (
      if verify_user user
      then (get_config r c.evaluator normalized config >>= λ res. ok (
        log_config_exposure r.now_milli format_int c.logger normalized config res.id
            res.secondary_exposures res.evaluation_details true,
        tt,
      ))
      else ok ((c.logger, []), tt))

  -- `ManuallyLogLayerParameterExposure`
  unfoldable pub manually_log_layer_parameter_exposure :
      String → String → Outcome {0} (Captured Logged Unit)
  unfolding verify_user
  manually_log_layer_parameter_exposure layer parameter = guarded tt c.boundary c.logger (
      if verify_user user
      then (get_layer r c.evaluator normalized layer >>= λ res. ok (
        log_layer_exposure r.now_milli format_int c.logger normalized
            (new_layer layer (some res.config_value.value) res.config_value.rule_id false) parameter
            res res.evaluation_details true,
        tt,
      ))
      else ok ((c.logger, []), tt))

  -- `GetExperiment`, and the same without exposure logging.
  unfoldable pub get_experiment : Bool → String → Outcome (Captured Logged ConfigBase)
  unfolding get_config_impl
  get_experiment log_exposure experiment =
      if verify_user user
      then get_config_impl log_exposure experiment
      else ok (record {
        value = new_config experiment none "";
        state = (c.logger, []);
        boundary = c.boundary;
        reports = [];
      })

  -- `GetClientInitializeResponse`
  unfoldable pub client_initialize_response : String → Outcome (Captured Logged InitializeResponse)
  unfolding verify_user get_client_initialize_response
  client_initialize_response client_key = guarded empty_response c.boundary c.logger (
      if verify_user user
      then (get_client_initialize_response r c.evaluator normalized client_key >>= λ response.
          ok ((c.logger, []), response))
      else ok ((c.logger, []), empty_response))

-- `LogEvent`
unfoldable pub log_event : Runtime → (ℤ → String) → Client → Event → Logged
log_event r format_int c event =
    if event.event_name == ""
    then (c.logger, [])
    else log_custom r.now_milli format_int c.logger
        (record event { user = normalize_user c.environment event.user })

-- `LogImmediate`: the events of the request, or the refusal of a batch that is too large.
unfoldable pub log_immediate : Client → List Event → Option (List LogEvent)
log_immediate c events =
    if ltb 500 (length events)
    then none
    else some (
        map (λ event. custom (record event { user = normalize_user c.environment event.user }))
          events)

-- `Shutdown`: the buffer is sent while the caller waits, and the polling stops. The adapter's own
-- `Shutdown` is outside.
unfoldable pub shutdown :
    Runtime
    → (ℤ → String)
    → (DiagnosticsContext → String → ℕ)
    → Client
    → Diagnostics
    → Client × Diagnostics × List Batch
unfolding flush stop_polling
shutdown r format_int draw c d =
    let (l, d', batches) = flush r.now_milli draw c.logger d true in
    (
      record c {
        logger = l;
        evaluator = record c.evaluator { store = stop_polling c.evaluator.store };
      },
      d',
      batches,
    )
