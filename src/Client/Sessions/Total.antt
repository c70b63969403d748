-- ===== src/Client/Sessions/Total.antt =====
-- A client answers every call.
use statsig_go_sdk.Prelude.{String, refl, Bool, true, false, if◌then◌else◌}
use statsig_go_sdk.Prelude.Int.{ℤ}
use statsig_go_sdk.Runtime.{Runtime}
use statsig_go_sdk.Evaluator.Result.{Outcome, ◌>>=◌}
use statsig_go_sdk.ErrorBoundary.{Captured}
use statsig_go_sdk.InitializeResponse.Ending.{get_client_initialize_response-Ends}
use statsig_go_sdk.Client.{verify_user, Server, Logged}
use statsig_go_sdk.Client.Calls.{
  get_experiment, manually_log_gate_exposure, manually_log_config_exposure,
  manually_log_layer_parameter_exposure, client_initialize_response,
}
use statsig_go_sdk.Client.Checks.{
  Returns, guarded-Returns, Ends-verified, check_gate-Ends, get_config-Ends, get_layer-Ends,
  check-Returns,
}
use statsig_go_sdk.Client.Sessions.{
  Request, check_gate, get_config, get_experiment_config, get_layer, read_parameter, log_gate,
  log_config, log_layer_parameter, get_initialize_response, log_custom_event, set_gate, set_config,
  set_layer, replace_store, tick, shut_down, Session, serves, serve,
}

Returns-if :
    {A : Type 0} (b : Bool) (m n : Outcome A) → Returns m → Returns n → Returns (if b then m else n)
Returns-if true m n h g = h
Returns-if false m n h g = g

Returns->>= :
    {A B : Type 0} (m : Outcome A) (f : A → Outcome B)
    → Returns m
    → ((a : A) → Returns (f a))
    → Returns (m >>= f)
Returns->>= m f (a, e) h = rw e (h a)

module _ (format_int : ℤ → String) (server : Server) where
  serves-Returns :
      {A : Type 0} (s : Session) (m : Outcome (Captured Logged A))
      → Returns m
      → Returns (serves s m)
  serves-Returns s m h = Returns->>= m _ h (λ out. (_, refl))

  pub serve-Returns :
      (r : Runtime) (s : Session) (request : Request)
      → Returns (serve format_int server r s request)
  unfolding serve get_experiment manually_log_gate_exposure manually_log_config_exposure
      manually_log_layer_parameter_exposure client_initialize_response
  serve-Returns r s (check_gate log user name) =
      serves-Returns s _ (check-Returns r format_int server s.client user log name).0
  serve-Returns r s (get_config log user name) =
      serves-Returns s _ (check-Returns r format_int server s.client user log name).1
  serve-Returns r s (get_experiment_config log user name) = serves-Returns s _ (
      Returns-if (verify_user user) _ _ (check-Returns r format_int server s.client user log name).1
        (_, refl))
  serve-Returns r s (get_layer log user name) =
      Returns->>= _ _ (check-Returns r format_int server s.client user log name).2
        (λ out. (_, refl))
  serve-Returns r s (read_parameter n parameter) = (_, refl)
  serve-Returns r s (log_gate user name) = serves-Returns s _ (
      guarded-Returns _ _ _ _
        (Ends-verified (verify_user user) _ _ _ (check_gate-Ends r s.client.evaluator _ name)))
  serve-Returns r s (log_config user name) = serves-Returns s _ (
      guarded-Returns _ _ _ _
        (Ends-verified (verify_user user) _ _ _ (get_config-Ends r s.client.evaluator _ name)))
  serve-Returns r s (log_layer_parameter user layer parameter) = serves-Returns s _ (
      guarded-Returns _ _ _ _
        (Ends-verified (verify_user user) _ _ _ (get_layer-Ends r s.client.evaluator _ layer)))
  serve-Returns r s (get_initialize_response user client_key) = serves-Returns s _ (
      guarded-Returns _ _ _ _ (
        Ends-verified (verify_user user) _ _ _
          (get_client_initialize_response-Ends r s.client.evaluator _ client_key)))
  serve-Returns r s (log_custom_event event) = (_, refl)
  serve-Returns r s (set_gate gate val) = (_, refl)
  serve-Returns r s (set_config config val) = (_, refl)
  serve-Returns r s (set_layer layer val) = (_, refl)
  serve-Returns r s (replace_store store) = (_, refl)
  serve-Returns r s (tick draw) = (_, refl)
  serve-Returns r s (shut_down draw) = (_, refl)
