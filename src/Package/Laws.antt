-- ===== src/Package/Laws.antt =====
-- The package as a client: what its functions do once it is initialized.
use statsig_go_sdk.Prelude.{String, ◌≡◌, Option, none, some, List, [], ◌∷◌}
use statsig_go_sdk.Prelude.Int.{ℤ}
use statsig_go_sdk.Runtime.{Runtime}
use statsig_go_sdk.Evaluator.Result.{Outcome, ok}
use statsig_go_sdk.OutputLogger.{GlobalLogger, Output}
use statsig_go_sdk.Client.{Server}
use statsig_go_sdk.Client.Sessions.{
  Request, replace_store, tick, read_parameter, shut_down, Session, serve_all,
}
use statsig_go_sdk.Package.{Globals, Ending, returned, request_of}
use statsig_go_sdk.Package.Calls.{
  Operation, start_default, start_with, calls, shuts_down, polls, ticks, reads,
}

-- What an operation asks of the instance.
abbrev pub asks : Operation → Option Request
asks (start_default sdk_key store d) = none
asks (start_with sdk_key options store d in_time) = none
asks (calls call) = request_of call
asks (shuts_down draw) = some (shut_down draw)
asks (polls store) = some (replace_store store)
asks (ticks draw) = some (tick draw)
asks (reads n parameter) = some (read_parameter n parameter)

abbrev add_request : Runtime → Option Request → List (Runtime × Request) → List (Runtime × Request)
add_request r none requests = requests
add_request r (some request) requests = (r, request) ∷ requests

abbrev pub requests_of : List (Runtime × String × Operation) → List (Runtime × Request)
requests_of [] = []
requests_of ((r, timestamp, operation) ∷ operations) =
    add_request r (asks operation) (requests_of operations)

abbrev pub all_returned : List (Runtime × String × Operation) → List Ending
all_returned [] = []
all_returned (_ ∷ operations) = returned ∷ all_returned operations

module _ (format_int : ℤ → String) (server : Server) where
  -- Globals with the instance `s'`, after requests that take `s` there.
  abbrev Follows :
      Session → (Session → Outcome Session) → Outcome (Globals × List Output × Ending) → Type 0
  Follows s f m =
      (s' : Session) × (g' : Globals) × (out : List Output) × (m ≡ ok (g', out, returned))
      × (g'.instance ≡ some s')
      × (f s ≡ ok s')

  there : GlobalLogger → Session → Globals
  there l s = record { instance = some s; logger = l }

  Refines : Session → List (Runtime × String × Operation) → Outcome (Globals × List Ending) → Type 0
  Refines s operations m =
      (s' : Session) × (g' : Globals) × (serve_all format_int server s (requests_of operations)
        ≡ ok s')
      × (m ≡ ok (g', all_returned operations))
      × (g'.instance ≡ some s')
