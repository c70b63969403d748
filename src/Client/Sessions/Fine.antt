-- ===== src/Client/Sessions/Fine.antt =====
-- What a call of a client does to its logger and its error boundary.
use statsig_go_sdk.Prelude.{
  String, ◌≡◌, Bool, true, false, not, ◌&&◌, Option, none, some, List, [], ◌==◌, arith, eq_iff,
  Bool-cases, inl, inr, if◌then◌else◌,
}
use statsig_go_sdk.Prelude.Int.{ℤ}
use statsig_go_sdk.Runtime.{Runtime}
use statsig_go_sdk.Types.{User, Event, new_layer, zero_config}
use statsig_go_sdk.Evaluator.Result.{EvalResult, Outcome, ok, panic, out_of_fuel, ◌>>=◌}
use statsig_go_sdk.ErrorBoundary.{Boundary, Captured, is_seen, capture, log_exception, check_seen}
use statsig_go_sdk.ErrorBoundary.Laws.{count}
use statsig_go_sdk.Logger.{Logger}
use statsig_go_sdk.Logger.Buffer.{sent}
use statsig_go_sdk.Logger.Privacy.{
  AllPublic, custom_call, gate_call, config_call, layer_call, Call-AllPublic,
}
use statsig_go_sdk.Client.{verify_user, Server, Logged, guarded, panic_message, Client, LayerHandle}
use statsig_go_sdk.Client.Calls.{
  gate_checked, config_checked, layer_checked, silent_layer, check_gate_impl, get_config_impl,
  get_layer_impl, get_experiment, manually_log_gate_exposure, manually_log_config_exposure,
  manually_log_layer_parameter_exposure, client_initialize_response, log_event,
}

-- From a public buffer, what is sent and what is left are public.
abbrev pub IsFine : Logger → Logged → Type 0
IsFine l (l', batches) = AllPublic l.events → AllPublic (sent batches) × AllPublic l'.events

pub silent-IsFine : (l : Logger) → IsFine l (l, [])
silent-IsFine l h = (tt, h)

-- The reports are of the messages that are new to the boundary, each once.
abbrev pub IsTold : Boundary → List String → Boundary → Type 0
IsTold b reports b' =
    (message : String)
    → (count message reports
        ≡ (if is_seen message b'.seen && not (is_seen message b.seen) then 1 else 0))
      × (is_seen message b.seen ≡ true → is_seen message b'.seen ≡ true)

pub quiet-IsTold : (b : Boundary) → IsTold b [] b
quiet-IsTold b message = (ground arith, λ h. h)

pub log_exception-IsTold :
    (b : Boundary) (exception : Option String)
    → IsTold b (log_exception b exception).1 (log_exception b exception).0
unfolding log_exception check_seen is_seen
log_exception-IsTold b none message = (ground (arith, eq_iff "Unknown" message), λ h. ground arith)
log_exception-IsTold b (some e) message = (ground (arith, eq_iff e message), λ h. ground arith)

-- A property of the value, if there is one.
abbrev pub OnOk {ℓ κ} : {A : Type ℓ} → (A → Type κ) → Outcome A → Type κ
OnOk P (ok a) = P a
OnOk P (panic p) = Unit
OnOk P out_of_fuel = Unit

OnOk-if {ℓ κ} :
    {A : Type ℓ} (b : Bool) (P : A → Type κ) (m n : Outcome A)
    → OnOk P m
    → OnOk P n
    → OnOk P (if b then m else n)
OnOk-if true P m n h g = h
OnOk-if false P m n h g = g

abbrev pub IsServed : {A : Type 0} → Logger → Boundary → Captured Logged A → Type 0
IsServed l b out = IsFine l out.state × IsTold b out.reports out.boundary

-- A layer that is handed out logs without private attributes whenever it is read.
abbrev pub IsFineLayer : LayerHandle → Type 0
IsFineLayer layer = (l : Logger) (parameter : String) → IsFine l (layer.expose l parameter)

guarded-IsServed :
    {A : Type 0} (zero_value : A) (b : Boundary) (l : Logger) (m : Outcome (Logged × A))
    → OnOk (λ out. IsFine l out.0) m
    → OnOk (IsServed l b) (guarded zero_value b l m)
unfolding capture
guarded-IsServed zero_value b l (ok (logged, a)) h = (h, quiet-IsTold b)
guarded-IsServed zero_value b l (panic p) h =
    (silent-IsFine l, log_exception-IsTold b (some (panic_message p)))
guarded-IsServed zero_value b l out_of_fuel h = tt

verified-IsFine :
    {A B : Type 0} (verified : Bool) (l : Logger) (m : Outcome B) (f : B → Logged × A)
    (otherwise : A)
    → ((res : B) → IsFine l (f res).0)
    → OnOk
        (λ out. IsFine l out.0)
        (if verified then (m >>= λ res. ok (f res)) else ok ((l, []), otherwise))
verified-IsFine false l m f otherwise h = silent-IsFine l
verified-IsFine true l (ok res) f otherwise h = h res
verified-IsFine true l (panic p) f otherwise h = tt
verified-IsFine true l out_of_fuel f otherwise h = tt

IsFine-if :
    (b : Bool) (l : Logger) (x y : Logged) → IsFine l x → IsFine l y → IsFine l (if b then x else y)
IsFine-if true l x y h g = h
IsFine-if false l x y h g = g

module _ (r : Runtime) (format_int : ℤ → String) (server : Server) (c : Client) (user : User) where
  gate_checked-IsFine :
      (log : Bool) (name : String) (res : EvalResult)
      → IsFine c.logger (gate_checked r format_int server c user log name res).0
  gate_checked-IsFine log name res = elim (Bool-cases res.fetch_from_server) [
    | inl remote ↦ rw remote (silent-IsFine c.logger)
    | inr local ↦ rw local (
        IsFine-if log c.logger _ _
          (Call-AllPublic r.now_milli format_int (gate_call c.logger _ name _ _ _ _ _))
          (silent-IsFine c.logger))
  ]

  config_checked-IsFine :
      (log : Bool) (name : String) (res : EvalResult)
      → IsFine c.logger (config_checked r format_int server c user log name res).0
  config_checked-IsFine log name res = elim (Bool-cases res.fetch_from_server) [
    | inl remote ↦ rw remote (silent-IsFine c.logger)
    | inr local ↦ rw local (
        IsFine-if log c.logger _ _
          (Call-AllPublic r.now_milli format_int (config_call c.logger _ name _ _ _ _))
          (silent-IsFine c.logger))
  ]

  pub check_gate_impl-IsServed :
      (log : Bool) (name : String)
      → OnOk (IsServed c.logger c.boundary) (check_gate_impl r format_int server c user log name)
  unfolding check_gate_impl
  check_gate_impl-IsServed log name =
      guarded-IsServed _ c.boundary c.logger _
        (verified-IsFine (verify_user user) c.logger _ _ _ (gate_checked-IsFine log name))

  pub get_config_impl-IsServed :
      (log : Bool) (name : String)
      → OnOk (IsServed c.logger c.boundary) (get_config_impl r format_int server c user log name)
  unfolding get_config_impl
  get_config_impl-IsServed log name =
      guarded-IsServed _ c.boundary c.logger _
        (verified-IsFine (verify_user user) c.logger _ _ _ (config_checked-IsFine log name))

  pub get_experiment-IsServed :
      (log : Bool) (name : String)
      → OnOk (IsServed c.logger c.boundary) (get_experiment r format_int server c user log name)
  unfolding get_experiment
  get_experiment-IsServed log name =
      OnOk-if (verify_user user) _ _ _ (get_config_impl-IsServed log name)
        (silent-IsFine c.logger, quiet-IsTold c.boundary)

  pub manually_log_gate_exposure-IsServed :
      (name : String)
      → OnOk
          (IsServed c.logger c.boundary)
          (manually_log_gate_exposure r format_int server c user name)
  unfolding manually_log_gate_exposure
  manually_log_gate_exposure-IsServed name = guarded-IsServed _ c.boundary c.logger _ (
      verified-IsFine (verify_user user) c.logger _ _ _
        (λ res. Call-AllPublic r.now_milli format_int (gate_call c.logger _ name _ _ _ _ _)))

  pub manually_log_config_exposure-IsServed :
      (name : String)
      → OnOk
          (IsServed c.logger c.boundary)
          (manually_log_config_exposure r format_int server c user name)
  unfolding manually_log_config_exposure
  manually_log_config_exposure-IsServed name = guarded-IsServed _ c.boundary c.logger _ (
      verified-IsFine (verify_user user) c.logger _ _ _
        (λ res. Call-AllPublic r.now_milli format_int (config_call c.logger _ name _ _ _ _)))

  pub manually_log_layer_parameter_exposure-IsServed :
      (layer parameter : String)
      → OnOk
          (IsServed c.logger c.boundary)
          (manually_log_layer_parameter_exposure r format_int server c user layer parameter)
  unfolding manually_log_layer_parameter_exposure
  manually_log_layer_parameter_exposure-IsServed layer parameter =
      guarded-IsServed _ c.boundary c.logger _ (
        verified-IsFine (verify_user user) c.logger _ _ _
          (λ res. Call-AllPublic r.now_milli format_int (layer_call c.logger _ _ parameter _ _ _)))

  pub client_initialize_response-IsServed :
      (client_key : String)
      → OnOk
          (IsServed c.logger c.boundary)
          (client_initialize_response r format_int server c user client_key)
  unfolding client_initialize_response
  client_initialize_response-IsServed client_key =
      guarded-IsServed _ c.boundary c.logger _
        (verified-IsFine (verify_user user) c.logger _ _ _ (λ response. silent-IsFine c.logger))

  layer_checked-IsFine :
      (log : Bool) (name : String) (res : EvalResult)
      → IsFineLayer (layer_checked r format_int server c user log name res).1
  layer_checked-IsFine log name res l parameter =
      IsFine-if log l _ _ (Call-AllPublic r.now_milli format_int (layer_call l _ _ parameter _ _ _))
        (silent-IsFine l)

  layer_value-IsFine :
      (verified log : Bool) (name : String) (m : Outcome EvalResult)
      → OnOk
          (λ out. IsServed c.logger c.boundary out × IsFineLayer out.value)
          (guarded (silent_layer r format_int server c user log zero_config) c.boundary c.logger (
            if verified
            then (m >>= λ res. ok (layer_checked r format_int server c user log name res))
            else ok (
              (c.logger, []),
              silent_layer r format_int server c user log (new_layer name none "" false),
            )))
  unfolding capture
  layer_value-IsFine false log name m =
      ((silent-IsFine c.logger, quiet-IsTold c.boundary), λ l parameter. silent-IsFine l)
  layer_value-IsFine true log name (ok res) =
      ((silent-IsFine c.logger, quiet-IsTold c.boundary), layer_checked-IsFine log name res)
  layer_value-IsFine true log name (panic p) = (
    (silent-IsFine c.logger, log_exception-IsTold c.boundary (some (panic_message p))),
    λ l parameter. silent-IsFine l,
  )
  layer_value-IsFine true log name out_of_fuel = tt

  pub get_layer_impl-IsServed :
      (log : Bool) (name : String)
      → OnOk
          (λ out. IsServed c.logger c.boundary out × IsFineLayer out.value)
          (get_layer_impl r format_int server c user log name)
  unfolding get_layer_impl
  get_layer_impl-IsServed log name = layer_value-IsFine (verify_user user) log name _

pub log_event-IsFine :
    (r : Runtime) (format_int : ℤ → String) (c : Client) (event : Event)
    → IsFine c.logger (log_event r format_int c event)
unfolding log_event
log_event-IsFine r format_int c event =
    IsFine-if (event.event_name == "") c.logger _ _ (silent-IsFine c.logger)
      (Call-AllPublic r.now_milli format_int (custom_call c.logger _))
