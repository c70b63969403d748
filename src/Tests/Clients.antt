-- ===== src/Tests/Clients.antt =====
-- A client's calls, its logger, its requests and its reports at concrete data.
use statsig_go_sdk.Prelude.{
  ℕ, ◌≤◌, String, ◌≡◌, true, false, none, some, List, [], ◌∷◌, ◌++◌, length, zero, suc,
  if◌then◌else◌,
}
use statsig_go_sdk.Prelude.Int.{ℤ, pos, ltb_ℤ}
use statsig_go_sdk.Dict.{lookup}
use statsig_go_sdk.Value.{string}
use statsig_go_sdk.Types.{User, Event}
use statsig_go_sdk.Evaluator.Result.{Outcome, ok, Exposure}
use statsig_go_sdk.Transport.{HttpResult, response}
use statsig_go_sdk.ErrorBoundary.{new_error_boundary}
use statsig_go_sdk.Diagnostics.{
  Marker, DiagnosticsBase, config_sync, DiagnosticsContext, new_diagnostics,
  serialize_with_sampling,
}
use statsig_go_sdk.Diagnostics.Sampling.{keep_keys, serialize_with_sampling-keep_keys}
use statsig_go_sdk.Logger.{Logger, LogEvent, custom, LoggerOptions, new_logger}
use statsig_go_sdk.Logger.Flush.{flush}
use statsig_go_sdk.Logger.Buffer.{sent, Operation, add, flush_buffer, run, all_added, run-Conserves}
use statsig_go_sdk.Logger.Flushes.{AllDiagnostic, flush-sends}
use statsig_go_sdk.Client.{Server, Client, empty_response}
use statsig_go_sdk.Client.Calls.{check_gate_impl, get_config_impl}
use statsig_go_sdk.Client.Exposures.{SilentTwin, check-SilentTwin}
use statsig_go_sdk.InitializeResponse.Exposures.{count_key, has_key, clean_exposures-distinct}
use statsig_go_sdk.InitializeResponse.Types.{InitializeResponse}
use statsig_go_sdk.InitializeResponse.{clean_exposures, get_client_initialize_response}
use statsig_go_sdk.Evaluator.Condition.{Evaluator}
use statsig_go_sdk.Tests.Data.{test_runtime, ada, evaluator, project, open_gate, shut_gate}

-- A server that is overloaded at first, and then answers.
abbrev flaky : ℕ → HttpResult
flaky zero = response 503 true
flaky (suc n) = response 200 true

abbrev marker : String → Marker
marker key = record {
  key = key;
  step = none;
  action = none;
  timestamp = pos 1;
  success = none;
  status_code = none;
  sdk_region = none;
  id_list_count = none;
  url = none;
}

abbrev synced : DiagnosticsBase
synced = record {
  context = config_sync;
  markers = marker "bootstrap" ∷ marker "get_id_list" ∷ marker "bootstrap" ∷ [];
  sampling_rates = ("bootstrap", pos 10000) ∷ [];
}

abbrev five : String → ℕ
five key = 5

serialize_with_sampling-keep_keys_example :
    serialize_with_sampling five synced
    ≡ keep_keys
        (λ key. elim (lookup key synced.sampling_rates) [
          | none ↦ false
          | some rate ↦ ltb_ℤ (pos (five key)) rate
        ])
        synced.markers
serialize_with_sampling-keep_keys_example = serialize_with_sampling-keep_keys five synced

abbrev logger_options : LoggerOptions
logger_options = record {
  disable_init_diagnostics = false;
  disable_sync_diagnostics = true;
  disable_api_diagnostics = false;
}

abbrev pub small_logger : Logger
small_logger = new_logger 2 logger_options

abbrev pub secretive : User
secretive = record ada { private_attributes = ("salary", string "1") ∷ [] }

abbrev pub click : Event
click = record { event_name = "click"; user = secretive; value = ""; metadata = []; time = pos 0 }

abbrev operations : List Operation
operations = add (custom click) ∷ add (custom click) ∷ add (custom click) ∷ flush_buffer true ∷ []

run-Conserves_example :
    sent (run small_logger operations).1 ++ (run small_logger operations).0.events
    ≡ [] ++ all_added operations
run-Conserves_example = run-Conserves small_logger operations

abbrev pub draws : DiagnosticsContext → String → ℕ
draws context = five

flush-sends_example :
    let (l', d', batches) = flush (pos 9) draws small_logger new_diagnostics true in
    (l'.events ≡ [])
    × ((es : List LogEvent) × (sent batches ≡ [] ++ es) × AllDiagnostic es × (length es ≤ 3))
flush-sends_example = flush-sends (pos 9) draws small_logger new_diagnostics true

abbrev pub no_format : ℤ → String
no_format n = ""

abbrev pub server : Server
server = record { check_gate = λ user name. none; get_config = λ user name. none }

abbrev pub client : Client
client = record {
  evaluator = evaluator;
  logger = small_logger;
  boundary = new_error_boundary;
  environment = record { tier = "staging"; params = ("region", "eu") ∷ [] };
}

check-SilentTwin_example :
    SilentTwin small_logger
      (check_gate_impl test_runtime no_format server client ada true "open")
      (check_gate_impl test_runtime no_format server client ada false "open")
    × SilentTwin small_logger
        (get_config_impl test_runtime no_format server client ada true "open")
        (get_config_impl test_runtime no_format server client ada false "open")
check-SilentTwin_example = check-SilentTwin test_runtime no_format server client ada "open"

abbrev seen_twice : List Exposure
seen_twice = (("gate", "open") ∷ []) ∷ (("gate", "shut") ∷ []) ∷ (("gate", "open") ∷ []) ∷ []

clean_exposures-distinct_example :
    ((key : String)
      → count_key key (clean_exposures seen_twice) ≡ (if has_key key seen_twice then 1 else 0))
    × (clean_exposures (clean_exposures seen_twice) ≡ clean_exposures seen_twice)
clean_exposures-distinct_example = clean_exposures-distinct seen_twice

-- Two gates without a cycle.
abbrev two_gates : Evaluator
two_gates = record evaluator {
  store = record project { feature_gates = ("open", open_gate) ∷ ("shut", shut_gate) ∷ [] };
}

abbrev response_of : Outcome InitializeResponse → InitializeResponse
response_of (ok out) = out
response_of _ = empty_response

abbrev two_responses : InitializeResponse
two_responses = response_of (get_client_initialize_response test_runtime two_gates ada "client")
