-- ===== src/Client/Checks.antt =====
-- What a caller of a check can rely on: an answer, whatever the specs and the user.
use statsig_go_sdk.Prelude.{
  String, ◌≡◌, refl, Bool, true, false, none, some, [], arith, Option-cases, inl, inr,
  if◌then◌else◌,
}
use statsig_go_sdk.Prelude.Int.{ℤ}
use statsig_go_sdk.Dict.{lookup}
use statsig_go_sdk.Runtime.{Runtime}
use statsig_go_sdk.Types.{User, new_config}
use statsig_go_sdk.Store.State.{get_gate, get_dynamic_config, get_layer_config}
use statsig_go_sdk.Evaluator.Result.{
  Outcome, ok, panic, out_of_fuel, Panic, ◌>>=◌, Ends, Ends->>=, Ends-ok,
}
use statsig_go_sdk.Evaluator.Condition.{Evaluator, eval_gate}
use statsig_go_sdk.Evaluator.Eval.Depth.{eval-Ends}
use statsig_go_sdk.Evaluator.Api.{
  eval_fuel, eval_config, eval_layer, check_gate, get_config, get_layer,
}
use statsig_go_sdk.ErrorBoundary.{Boundary, returned, panicked, capture, log_exception}
use statsig_go_sdk.Logger.{Logger}
use statsig_go_sdk.Client.{
  normalize_user, verify_user, Server, Logged, guarded, Client, panic_message,
}
use statsig_go_sdk.Client.Calls.{check_gate_impl, get_config_impl, get_layer_impl}

module _ (r : Runtime) (e : Evaluator) (user : User) where
  pub check_gate-Ends : (name : String) → Ends (check_gate r e user name)
  unfolding check_gate eval_gate
  check_gate-Ends name = elim (Option-cases (lookup name e.gate_overrides)) [
    | inr (value, over) ↦ rw over (λ q. cc)
    | inl plain ↦ elim (Option-cases (get_gate e.store name)) [
      | inl missing ↦ rw (plain, missing) (λ q. cc)
      | inr (spec, found) ↦
          rw (plain, found) (eval-Ends r e user eval_fuel spec 1 (omega arith) (omega arith))
    ]
  ]

  pub get_config-Ends : (name : String) → Ends (get_config r e user name)
  unfolding get_config eval_config
  get_config-Ends name = elim (Option-cases (lookup name e.config_overrides)) [
    | inr (value, over) ↦ rw over (λ q. cc)
    | inl plain ↦ elim (Option-cases (get_dynamic_config e.store name)) [
      | inl missing ↦ rw (plain, missing) (λ q. cc)
      | inr (spec, found) ↦
          rw (plain, found) (eval-Ends r e user eval_fuel spec 1 (omega arith) (omega arith))
    ]
  ]

  pub get_layer-Ends : (name : String) → Ends (get_layer r e user name)
  unfolding get_layer eval_layer
  get_layer-Ends name = elim (Option-cases (lookup name e.layer_overrides)) [
    | inr (value, over) ↦ rw over (λ q. cc)
    | inl plain ↦ elim (Option-cases (get_layer_config e.store name)) [
      | inl missing ↦ rw (plain, missing) (λ q. cc)
      | inr (spec, found) ↦
          rw (plain, found) (eval-Ends r e user eval_fuel spec 1 (omega arith) (omega arith))
    ]
  ]

-- A value is returned, and no panic leaves the call.
abbrev pub Returns {ℓ} : {A : Type ℓ} → Outcome A → Type ℓ
Returns {A = A} m = (a : A) × (m ≡ ok a)

pub guarded-Returns :
    {A : Type 0} (zero_value : A) (b : Boundary) (l : Logger) (m : Outcome (Logged × A))
    → Ends m
    → Returns (guarded zero_value b l m)
guarded-Returns zero_value b l (ok (logged, a)) h = (capture zero_value b (returned logged a), refl)
guarded-Returns zero_value b l (panic p) h =
    (capture zero_value b (panicked (l, []) (panic_message p)), refl)
guarded-Returns zero_value b l out_of_fuel h = absurd (h refl)

pub Ends-verified :
    {A : Type 0} {B : Type 0} (b : Bool) (m : Outcome A) (f : A → B) (otherwise : B)
    → Ends m
    → Ends (if b then (m >>= λ a. ok (f a)) else ok otherwise)
Ends-verified true m f otherwise h = Ends->>= m (λ a. ok (f a)) h (λ a. Ends-ok (f a))
Ends-verified false m f otherwise h = Ends-ok otherwise

module _ (r : Runtime) (format_int : ℤ → String) (server : Server) (c : Client) (user : User) where
  -- Every check of a gate, config or layer returns a value: it ends and does not panic, whatever
  -- the specs, the overrides, the user and the answers of the server.
  pub check-Returns :
      (log_exposure : Bool) (name : String)
      → Returns (check_gate_impl r format_int server c user log_exposure name)
        × Returns (get_config_impl r format_int server c user log_exposure name)
        × Returns (get_layer_impl r format_int server c user log_exposure name)
  unfolding check_gate_impl get_config_impl get_layer_impl
  check-Returns log_exposure name = (
    guarded-Returns _ c.boundary c.logger _ (
        Ends-verified (verify_user user) _ _ _
          (check_gate-Ends r c.evaluator (normalize_user c.environment user) name)),
    guarded-Returns _ c.boundary c.logger _ (
        Ends-verified (verify_user user) _ _ _
          (get_config-Ends r c.evaluator (normalize_user c.environment user) name)),
    guarded-Returns _ c.boundary c.logger _ (
        Ends-verified (verify_user user) _ _ _
          (get_layer-Ends r c.evaluator (normalize_user c.environment user) name)),
  )

  -- A check of a gate whose evaluation panics is answered with false: nothing is logged, and the
  -- error boundary is told.
  pub check_gate_impl-panic :
      (log_exposure : Bool) (name : String) (p : Panic)
      → verify_user user ≡ true
      → check_gate r c.evaluator (normalize_user c.environment user) name ≡ panic p
      → let (b', reports) = log_exception c.boundary (some (panic_message p)) in
        check_gate_impl r format_int server c user log_exposure name
        ≡ ok (record { value = false; state = (c.logger, []); boundary = b'; reports = reports })
  unfolding check_gate_impl capture
  check_gate_impl-panic log_exposure name p verified panics = rw (verified, panics)

  -- A user without an ID and without custom IDs fails every gate and has no config; the evaluator
  -- is not asked, and nothing is logged or reported.
  pub check-unverified :
      (log_exposure : Bool) (name : String)
      → user.user_id ≡ ""
      → user.custom_ids ≡ []
      → (check_gate_impl r format_int server c user log_exposure name
          ≡ ok (record {
            value = false;
            state = (c.logger, []);
            boundary = c.boundary;
            reports = [];
          }))
        × (get_config_impl r format_int server c user log_exposure name
            ≡ ok (record {
              value = new_config name none "";
              state = (c.logger, []);
              boundary = c.boundary;
              reports = [];
            }))
  unfolding check_gate_impl get_config_impl verify_user capture
  check-unverified log_exposure name no_id no_ids = (rw (no_id, no_ids), rw (no_id, no_ids))
