-- ===== src/Client/Sessions.antt =====
-- client.go: a client that serves call after call. Each call is served as a whole: the store, the
-- overrides, the buffer and the error boundary have locks of their own, and a call that runs beside
-- another comes before it or after it. Polling replaces the store between calls.
pub mod Fine
pub mod Kept
pub mod Laws
pub mod Total
use statsig_go_sdk.Prelude.{
  ℕ, zero, suc, String, Bool, false, Option, none, some, List, [], ◌∷◌, ◌++◌,
}
use statsig_go_sdk.Prelude.Int.{ℤ}
use statsig_go_sdk.Value.{Object}
use statsig_go_sdk.Runtime.{Runtime}
use statsig_go_sdk.Types.{User, Event}
use statsig_go_sdk.Store.State.{Store}
use statsig_go_sdk.Evaluator.Result.{Outcome, ok, ◌>>=◌}
use statsig_go_sdk.Evaluator.Api.{override_gate, override_config, override_layer}
use statsig_go_sdk.Diagnostics.{Diagnostics, DiagnosticsContext}
use statsig_go_sdk.ErrorBoundary.{Captured}
use statsig_go_sdk.Logger.{Batch}
use statsig_go_sdk.Logger.Flush.{flush}
use statsig_go_sdk.Client.{Server, Logged, LayerHandle, Client}
use statsig_go_sdk.Client.Calls.{
  check_gate_impl, get_config_impl, get_layer_impl, get_experiment, manually_log_gate_exposure,
  manually_log_config_exposure, manually_log_layer_parameter_exposure, client_initialize_response,
  log_event, shutdown,
}

-- A call of a client's method, and what else changes a client. The Boolean of a check says whether
-- its exposure is logged.
pub data Request : Type 0 where
  check_gate get_config get_experiment_config get_layer : Bool → User → String → Request
  -- a parameter of the layer that was handed out as the `n`-th
  read_parameter : (n : ℕ) → String → Request
  log_gate log_config : User → String → Request
  log_layer_parameter : User → String → String → Request
  get_initialize_response : User → String → Request
  log_custom_event : Event → Request
  set_gate : String → Bool → Request
  set_config set_layer : String → Object → Request
  -- a poll has changed the store
  replace_store : Store → Request
  -- the ticker of the logger
  tick : (DiagnosticsContext → String → ℕ) → Request
  shut_down : (DiagnosticsContext → String → ℕ) → Request

-- A client with the layers it has handed out, its diagnostics, and what it has sent so far: the
-- batches of events, and the exceptions.
pub record Session : Type 0 where
  pub client : Client
  pub layers : List LayerHandle
  pub diagnostics : Diagnostics
  pub batches : List Batch
  pub reports : List String

abbrev pub handle_at : ℕ → List LayerHandle → Option LayerHandle
handle_at n [] = none
handle_at zero (layer ∷ layers) = some layer
handle_at (suc n) (layer ∷ layers) = handle_at n layers

abbrev pub sends : Session → Logged → Session
sends s (l, batches) = record s {
  client = record s.client { logger = l };
  batches = s.batches ++ batches;
}

abbrev pub captured : {A : Type 0} → Session → Captured Logged A → Session
captured s out = record (sends s out.state) {
  client = record s.client { logger = out.state.0; boundary = out.boundary };
  reports = s.reports ++ out.reports;
}

abbrev pub serves : {A : Type 0} → Session → Outcome (Captured Logged A) → Outcome Session
serves s m = m >>= λ out. ok (captured s out)

abbrev pub hands_out : Session → Outcome (Captured Logged LayerHandle) → Outcome Session
hands_out s m = m >>= λ out. ok (record (captured s out) { layers = s.layers ++ (out.value ∷ []) })

abbrev pub reads : Session → Option LayerHandle → String → Session
reads s none parameter = s
reads s (some layer) parameter = sends s (layer.expose s.client.logger parameter)

module _ (format_int : ℤ → String) (server : Server) where
  unfoldable pub serve : Runtime → Session → Request → Outcome Session
  unfolding check_gate_impl get_config_impl get_layer_impl get_experiment manually_log_gate_exposure
      manually_log_config_exposure manually_log_layer_parameter_exposure client_initialize_response
      log_event flush shutdown override_gate override_config override_layer
  serve r s (check_gate log user name) =
      serves s (check_gate_impl r format_int server s.client user log name)
  serve r s (get_config log user name) =
      serves s (get_config_impl r format_int server s.client user log name)
  serve r s (get_experiment_config log user name) =
      serves s (get_experiment r format_int server s.client user log name)
  serve r s (get_layer log user name) =
      hands_out s (get_layer_impl r format_int server s.client user log name)
  serve r s (read_parameter n parameter) = ok (reads s (handle_at n s.layers) parameter)
  serve r s (log_gate user name) =
      serves s (manually_log_gate_exposure r format_int server s.client user name)
  serve r s (log_config user name) =
      serves s (manually_log_config_exposure r format_int server s.client user name)
  serve r s (log_layer_parameter user layer parameter) =
      serves s
        (manually_log_layer_parameter_exposure r format_int server s.client user layer parameter)
  serve r s (get_initialize_response user client_key) =
      serves s (client_initialize_response r format_int server s.client user client_key)
  serve r s (log_custom_event event) = ok (sends s (log_event r format_int s.client event))
  serve r s (set_gate gate val) = ok (record s {
    client = record s.client { evaluator = override_gate s.client.evaluator gate val };
  })
  serve r s (set_config config val) = ok (record s {
    client = record s.client { evaluator = override_config s.client.evaluator config val };
  })
  serve r s (set_layer layer val) = ok (record s {
    client = record s.client { evaluator = override_layer s.client.evaluator layer val };
  })
  serve r s (replace_store store) = ok (record s {
    client = record s.client { evaluator = record s.client.evaluator { store = store } };
  })
  serve r s (tick draw) =
      let (l, d, batches) = flush r.now_milli draw s.client.logger s.diagnostics false in
      ok (record (sends s (l, batches)) { diagnostics = d })
  serve r s (shut_down draw) =
      let (c, d, batches) = shutdown r format_int draw s.client s.diagnostics in
      ok (record s { client = c; diagnostics = d; batches = s.batches ++ batches })

  -- Each call has a clock of its own.
  unfoldable pub serve_all : Session → List (Runtime × Request) → Outcome Session
  unfolding serve
  serve_all s [] = ok s
  serve_all s ((r, request) ∷ requests) = serve r s request >>= λ s'. serve_all s' requests
