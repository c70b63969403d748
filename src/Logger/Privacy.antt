-- ===== src/Logger/Privacy.antt =====
-- Private attributes of a user do not leave the program in an event.
use statsig_go_sdk.Prelude.{ℕ, String, ◌≡◌, refl, sym, subst, Bool, Option, List, [], ◌∷◌, ◌++◌}
use statsig_go_sdk.Prelude.Int.{ℤ}
use statsig_go_sdk.Dict.{Dict}
use statsig_go_sdk.Types.{User, Event, ConfigBase}
use statsig_go_sdk.Store.State.{EvaluationDetails}
use statsig_go_sdk.Evaluator.Result.{EvalResult, Exposure}
use statsig_go_sdk.Diagnostics.{DiagnosticsContext, Diagnostics}
use statsig_go_sdk.Logger.{
  LogEvent, custom, exposure, diagnostic, Batch, Logger, log_internal, log_custom,
  log_exposure_event, log_exposure_with_evaluation_details, log_gate_exposure, log_config_exposure,
  log_layer_exposure,
}
use statsig_go_sdk.Logger.Flush.{flush}
use statsig_go_sdk.Logger.Buffer.{sent, log_internal-Conserves}
use statsig_go_sdk.Logger.Flushes.{AllDiagnostic, flush-sends}

-- An event without private attributes of its user.
abbrev pub IsPublic : LogEvent → Type 0
IsPublic (custom event) = event.user.private_attributes ≡ []
IsPublic (exposure event) = event.user.private_attributes ≡ []
IsPublic (diagnostic event) = Unit

abbrev pub AllPublic : List LogEvent → Type 0
AllPublic [] = Unit
AllPublic (e ∷ es) = IsPublic e × AllPublic es

pub AllPublic-append : (es fs : List LogEvent) → AllPublic es → AllPublic fs → AllPublic (es ++ fs)
AllPublic-append [] fs h g = g
AllPublic-append (e ∷ es) fs (one, h) g = (one, AllPublic-append es fs h g)

AllPublic-split : (es fs : List LogEvent) → AllPublic (es ++ fs) → AllPublic es × AllPublic fs
AllPublic-split [] fs h = (tt, h)
AllPublic-split (e ∷ es) fs (one, h) =
    let (left, right) = AllPublic-split es fs h in ((one, left), right)

AllPublic-of_diagnostics : (es : List LogEvent) → AllDiagnostic es → AllPublic es
AllPublic-of_diagnostics [] h = tt
AllPublic-of_diagnostics (diagnostic event ∷ es) (_, h) = (tt, AllPublic-of_diagnostics es h)
AllPublic-of_diagnostics (custom event ∷ es) (one, h) = absurd one
AllPublic-of_diagnostics (exposure event ∷ es) (one, h) = absurd one

-- What a call sends and leaves is public.
abbrev Leaves : Logger × List Batch → Type 0
Leaves (l, batches) = AllPublic (sent batches) × AllPublic l.events

log_internal-Leaves :
    (l : Logger) (event : LogEvent)
    → AllPublic l.events
    → IsPublic event
    → Leaves (log_internal l event)
log_internal-Leaves l event h one =
    let (l', batches) = log_internal l event in
    AllPublic-split (sent batches) l'.events (
      subst AllPublic (sym (log_internal-Conserves l event))
        (AllPublic-append l.events (event ∷ []) h (one, tt)))

module _ (now : ℤ) (format_int : ℤ → String) where
  -- A call of the logger, with the batches that it sends.
  pub data Call : Logger → Logger × List Batch → Type 0 where
    custom_call : (l : Logger) (event : Event) → Call l (log_custom now format_int l event)
    gate_call :
        (l : Logger) (user : User) (gate : String) (value : Bool) (rule_id : String)
        (exposures : List Exposure) (details : Option EvaluationDetails) (is_manual : Bool)
        → Call l
            (log_gate_exposure now format_int l user gate value rule_id exposures details is_manual)
    config_call :
        (l : Logger) (user : User) (config rule_id : String) (exposures : List Exposure)
        (details : Option EvaluationDetails) (is_manual : Bool)
        → Call l
            (log_config_exposure now format_int l user config rule_id exposures details is_manual)
    layer_call :
        (l : Logger) (user : User) (config : ConfigBase) (parameter : String) (res : EvalResult)
        (details : Option EvaluationDetails) (is_manual : Bool)
        → Call l (log_layer_exposure now format_int l user config parameter res details is_manual)
    flush_call :
        (l : Logger) (draw : DiagnosticsContext → String → ℕ) (d : Diagnostics) (closing : Bool)
        → Call l ((flush now draw l d closing).0, (flush now draw l d closing).2)

  exposure-Leaves :
      (l : Logger) (name : String) (user : User) (metadata : Dict String)
      (exposures : List Exposure) (details : Option EvaluationDetails)
      → AllPublic l.events
      → Leaves (
          log_exposure_with_evaluation_details now format_int l name user metadata exposures
            details)
  unfolding log_exposure_with_evaluation_details log_exposure_event
  exposure-Leaves l name user metadata exposures details h = log_internal-Leaves l _ h refl

  -- From a buffer without private attributes, every call of the logger sends none and leaves none
  -- in the buffer, whatever the user's attributes.
  pub Call-AllPublic :
      {l : Logger} {out : Logger × List Batch}
      → Call l out
      → AllPublic l.events
      → AllPublic (sent out.1) × AllPublic out.0.events
  unfolding log_custom log_gate_exposure log_config_exposure log_layer_exposure
  Call-AllPublic (custom_call l event) h = log_internal-Leaves l _ h refl
  Call-AllPublic (gate_call l user gate value rule_id exposures details is_manual) h =
      exposure-Leaves l _ user _ exposures details h
  Call-AllPublic (config_call l user config rule_id exposures details is_manual) h =
      exposure-Leaves l _ user _ exposures details h
  Call-AllPublic (layer_call l user config parameter res details is_manual) h =
      exposure-Leaves l _ user _ _ details h
  Call-AllPublic (flush_call l draw d closing) h =
      let (empty, (es, whole, all, _)) = flush-sends now draw l d closing in
      (
        subst AllPublic (sym whole)
            (AllPublic-append l.events es h (AllPublic-of_diagnostics es all)),
        subst AllPublic (sym empty) tt,
      )
