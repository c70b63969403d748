-- ===== src/Package/Uninitialized.antt =====
-- The package before it is initialized.
use statsig_go_sdk.Prelude.{
  String, ◌≡◌, Bool, not, ◌&&◌, Option, none, some, List, [], ◌∷◌, if◌then◌else◌,
}
use statsig_go_sdk.Prelude.Int.{ℤ}
use statsig_go_sdk.Text.{codes, has_prefix}
use statsig_go_sdk.Runtime.{Runtime}
use statsig_go_sdk.Store.State.{Store}
use statsig_go_sdk.Evaluator.Result.{Outcome, ok}
use statsig_go_sdk.Diagnostics.{Diagnostics}
use statsig_go_sdk.OutputLogger.{GlobalLogger, Output}
use statsig_go_sdk.Client.{Server, Client}
use statsig_go_sdk.Package.{
  Options, default_options, Globals, Ending, returned, panicked, invalid_key,
}
use statsig_go_sdk.Package.Calls.{
  Operation, start_default, start_with, calls, shuts_down, polls, ticks, reads, must_initialize,
}

abbrev pub is_refused : Options → String → Bool
is_refused options sdk_key =
    not options.local_mode && not (has_prefix (codes sdk_key) (codes "secret"))

abbrev refusal : Bool → Option Ending
refusal refused = if refused then some (panicked invalid_key) else none

-- How an operation ends that leaves the package without an instance; `none` if it may create one,
-- or crash.
abbrev pub idle_end : Operation → Option Ending
idle_end (start_default sdk_key store d) = refusal (is_refused default_options sdk_key)
idle_end (start_with sdk_key options store d in_time) =
    if options.has_init_timeout
    then (if in_time then none else some returned)
    else refusal (is_refused options sdk_key)
idle_end (calls call) = some (panicked (must_initialize call))
idle_end (shuts_down draw) = some returned
idle_end (polls store) = some returned
idle_end (ticks draw) = some returned
idle_end (reads n parameter) = some returned

-- The ends of a run of such operations.
abbrev pub IdleEnds : List (Runtime × String × Operation) → List Ending → Type 0
IdleEnds [] ends = ends ≡ []
IdleEnds (_ ∷ operations) [] = ⊥
IdleEnds ((_, _, operation) ∷ operations) (end ∷ ends) =
    (idle_end operation ≡ some end) × IdleEnds operations ends

module _ (format_int : ℤ → String) (server : Server) where
  absent : GlobalLogger → Globals
  absent l = record { instance = none; logger = l }

  Idles : Ending → Outcome (Globals × List Output × Ending) → Type 0
  Idles end m = (l : GlobalLogger) × (out : List Output) × (m ≡ ok (absent l, out, end))

  Stays : List Ending → Outcome (Globals × List Ending) → Type 0
  Stays ends m = (l : GlobalLogger) × (m ≡ ok (absent l, ends))
