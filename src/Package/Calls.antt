-- ===== src/Package/Calls.antt =====
-- statsig.go: the calls on the global instance, and a program that uses the package.
use Prim.Native.String.{◌++◌}
use statsig_go_sdk.Prelude.{ℕ, String, Bool, Option, none, some, List, [], ◌∷◌}
use statsig_go_sdk.Prelude.Int.{ℤ}
use statsig_go_sdk.Runtime.{Runtime}
use statsig_go_sdk.Store.State.{Store}
use statsig_go_sdk.Evaluator.Result.{Outcome, ok, ◌>>=◌}
use statsig_go_sdk.Diagnostics.{Diagnostics, DiagnosticsContext}
use statsig_go_sdk.OutputLogger.{Output}
use statsig_go_sdk.Client.{Server}
use statsig_go_sdk.Client.Sessions.{
  Request, replace_store, tick, read_parameter, shut_down, Session, serve,
}
use statsig_go_sdk.Package.{
  Options, Globals, Ending, returned, panicked, crashed, PublicCall, call_name, request_of,
  initialize, initialize_with_options,
}

abbrev pub must_initialize : PublicCall → String
must_initialize call = "must Initialize() statsig before calling " ++ call_name call

abbrev pub with_instance : Globals → Session → Globals
with_instance g s = record g { instance = some s }

-- What a program does with the package, without a clearing of the instance; and what goes on
-- beside it in the instance.
pub data Operation : Type 0 where
  start_default : String → Store → Diagnostics → Operation
  start_with : String → Options → Store → Diagnostics → (in_time : Bool) → Operation
  calls : PublicCall → Operation
  shuts_down : (DiagnosticsContext → String → ℕ) → Operation
  -- a poll, the ticker, or a read of a layer's parameter
  polls : Store → Operation
  ticks : (DiagnosticsContext → String → ℕ) → Operation
  reads : ℕ → String → Operation

module _ (format_int : ℤ → String) (server : Server) where
  abbrev pub asked : Runtime → Session → Option Request → Outcome Session
  asked r s none = ok s
  asked r s (some request) = serve format_int server r s request

  abbrev pub passed_on :
      Runtime → Globals → Option Session → PublicCall → Outcome (Globals × Ending)
  passed_on r g none call = ok (g, panicked (must_initialize call))
  passed_on r g (some s) call =
      asked r s (request_of call) >>= λ s'. ok (with_instance g s', returned)

  -- `CheckGate` and every other function that needs an instance.
  unfoldable pub public_call : Runtime → Globals → PublicCall → Outcome (Globals × Ending)
  unfolding request_of call_name serve
  public_call r g call = passed_on r g g.instance call

  abbrev pub asked_if_there : Runtime → Globals → Option Session → Request → Outcome Globals
  asked_if_there r g none request = ok g
  asked_if_there r g (some s) request =
      serve format_int server r s request >>= λ s'. ok (with_instance g s')

  -- `Shutdown`
  unfoldable pub shutdown_package :
      Runtime → Globals → (DiagnosticsContext → String → ℕ) → Outcome Globals
  unfolding serve
  shutdown_package r g draw = asked_if_there r g g.instance (shut_down draw)

  -- `ShutdownAndDangerouslyClearInstance`
  unfoldable pub shutdown_and_clear :
      Runtime → Globals → (DiagnosticsContext → String → ℕ) → Outcome Globals
  unfolding shutdown_package
  shutdown_and_clear r g draw =
      shutdown_package r g draw >>= λ g'. ok (record g' { instance = none })

  -- The globals after an operation, with what is written and how the operation ends.
  unfoldable pub operate :
      Runtime → String → Globals → Operation → Outcome (Globals × List Output × Ending)
  unfolding initialize initialize_with_options public_call shutdown_package serve
  operate r timestamp g (start_default sdk_key store d) =
      ok (initialize timestamp g sdk_key store d)
  operate r timestamp g (start_with sdk_key options store d in_time) =
      ok (initialize_with_options timestamp g sdk_key options store d in_time)
  operate r timestamp g (calls call) = public_call r g call >>= λ out. ok (out.0, [], out.1)
  operate r timestamp g (shuts_down draw) =
      shutdown_package r g draw >>= λ g'. ok (g', [], returned)
  operate r timestamp g (polls store) =
      asked_if_there r g g.instance (replace_store store) >>= λ g'. ok (g', [], returned)
  operate r timestamp g (ticks draw) =
      asked_if_there r g g.instance (tick draw) >>= λ g'. ok (g', [], returned)
  operate r timestamp g (reads n parameter) =
      asked_if_there r g g.instance (read_parameter n parameter) >>= λ g'. ok (g', [], returned)

  -- A run, with the ends of its operations. It stops at a crash; a panic is recovered by the caller.
  unfoldable pub run_package :
      Globals → List (Runtime × String × Operation) → Outcome (Globals × List Ending)
  unfolding operate
  run_package g [] = ok (g, [])
  run_package g ((r, timestamp, operation) ∷ operations) =
      operate r timestamp g operation >>= λ out. elim out.2 [
        | crashed ↦ ok (out.0, crashed ∷ [])
        | returned ↦ run_package out.0 operations >>= λ rest. ok (rest.0, returned ∷ rest.1)
        | panicked message ↦
            run_package out.0 operations >>= λ rest. ok (rest.0, panicked message ∷ rest.1)
      ]
