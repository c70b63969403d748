-- ===== src/Client/Exposures.antt =====
-- Whether exposures are logged makes no difference to the answers.
use statsig_go_sdk.Prelude.{
  String, ◌≡◌, refl, Bool, true, false, none, [], Bool-cases, inl, inr, if◌then◌else◌,
}
use statsig_go_sdk.Prelude.Int.{ℤ}
use statsig_go_sdk.Runtime.{Runtime}
use statsig_go_sdk.Types.{User, new_config, zero_config}
use statsig_go_sdk.Evaluator.Result.{EvalResult, Outcome, ok, panic, out_of_fuel, ◌>>=◌}
use statsig_go_sdk.Evaluator.Api.{check_gate, get_config}
use statsig_go_sdk.ErrorBoundary.{Captured, capture}
use statsig_go_sdk.Logger.{Logger}
use statsig_go_sdk.Client.{normalize_user, verify_user, Server, Logged, guarded, Client}
use statsig_go_sdk.Client.Calls.{gate_checked, config_checked, check_gate_impl, get_config_impl}

-- The value of a call, and the logger and the batches that it leaves.
abbrev pub value_of : {A : Type 0} → Outcome (Captured Logged A) → Outcome A
value_of m = m >>= λ out. ok out.value

abbrev pub logged_of : {A : Type 0} → Outcome (Captured Logged A) → Outcome Logged
logged_of m = m >>= λ out. ok out.state

-- Two calls have the same value, and the second of them logs nothing.
abbrev pub SilentTwin :
    {A : Type 0} → Logger → Outcome (Captured Logged A) → Outcome (Captured Logged A) → Type 0
SilentTwin l m n = (value_of m ≡ value_of n) × (logged_of n ≡ (value_of n >>= λ _. ok (l, [])))

module _ (r : Runtime) (format_int : ℤ → String) (server : Server) (c : Client) (user : User) where
  gate-SilentTwin :
      (verified : Bool) (name : String) (m : Outcome EvalResult)
      → SilentTwin c.logger
          (guarded false c.boundary c.logger (
            if verified
            then (m >>= λ res. ok (gate_checked r format_int server c user true name res))
            else ok ((c.logger, []), false)))
          (guarded false c.boundary c.logger (
            if verified
            then (m >>= λ res. ok (gate_checked r format_int server c user false name res))
            else ok ((c.logger, []), false)))
  unfolding capture
  gate-SilentTwin false name m = (refl, refl)
  gate-SilentTwin true name (panic p) = (refl, refl)
  gate-SilentTwin true name out_of_fuel = (refl, refl)
  gate-SilentTwin true name (ok res) = elim (Bool-cases res.fetch_from_server) [
    | inl remote ↦ rw remote (refl, refl)
    | inr local ↦ rw local (refl, refl)
  ]

  config-SilentTwin :
      (verified : Bool) (name : String) (m : Outcome EvalResult)
      → SilentTwin c.logger
          (guarded zero_config c.boundary c.logger (
            if verified
            then (m >>= λ res. ok (config_checked r format_int server c user true name res))
            else ok ((c.logger, []), new_config name none "")))
          (guarded zero_config c.boundary c.logger (
            if verified
            then (m >>= λ res. ok (config_checked r format_int server c user false name res))
            else ok ((c.logger, []), new_config name none "")))
  unfolding capture
  config-SilentTwin false name m = (refl, refl)
  config-SilentTwin true name (panic p) = (refl, refl)
  config-SilentTwin true name out_of_fuel = (refl, refl)
  config-SilentTwin true name (ok res) = elim (Bool-cases res.fetch_from_server) [
    | inl remote ↦ rw remote (refl, refl)
    | inr local ↦ rw local (refl, refl)
  ]

  -- A check of a gate or config with exposure logging disabled has the same value as one with it,
  -- and leaves the logger as it was, with nothing sent.
  pub check-SilentTwin :
      (name : String)
      → SilentTwin c.logger
          (check_gate_impl r format_int server c user true name)
          (check_gate_impl r format_int server c user false name)
        × SilentTwin c.logger
            (get_config_impl r format_int server c user true name)
            (get_config_impl r format_int server c user false name)
  unfolding check_gate_impl get_config_impl
  check-SilentTwin name = (
    gate-SilentTwin (verify_user user) name
        (check_gate r c.evaluator (normalize_user c.environment user) name),
    config-SilentTwin (verify_user user) name
        (get_config r c.evaluator (normalize_user c.environment user) name),
  )
