-- ===== src/Tests/Sessions.antt =====
-- A program that uses a client, and one that uses the package.
use statsig_go_sdk.Prelude.{String, ◌≡◌, true, false, none, some, List, [], ◌∷◌}
use statsig_go_sdk.Value.{bool, string, end, done}
use statsig_go_sdk.Runtime.{Runtime}
use statsig_go_sdk.Types.{ConfigBase, new_layer}
use statsig_go_sdk.Types.Kinds.{ask_all, by_kind, ask_all-by_kind}
use statsig_go_sdk.Dict.{lookup}
use statsig_go_sdk.Evaluator.Result.{Outcome, ok}
use statsig_go_sdk.Diagnostics.{new_diagnostics}
use statsig_go_sdk.Client.Sessions.{
  Request, check_gate, get_layer, read_parameter, log_custom_event, replace_store, tick, Session,
  serve_all,
}
use statsig_go_sdk.Package.{
  Globals, Ending, default_options, fresh_session, returned, panicked, PublicCall,
}
use statsig_go_sdk.Package.Calls.{
  Operation, start_with, start_default, calls, shuts_down, must_initialize,
}
use statsig_go_sdk.Store.State.{empty_store}
use statsig_go_sdk.Tests.Data.{test_runtime, ada, project}
use statsig_go_sdk.Tests.Clients.{no_format, server, client, click, draws, secretive}

abbrev session : Session
session = fresh_session client new_diagnostics

-- Two checks of a gate of a cycle panic in the same way; a layer is read after the store changed.
abbrev requests : List (Runtime × Request)
requests =
    (test_runtime, check_gate true secretive "loop")
    ∷ (test_runtime, check_gate true secretive "loop")
    ∷ (test_runtime, get_layer true secretive "none")
    ∷ (test_runtime, log_custom_event click)
    ∷ (test_runtime, replace_store empty_store)
    ∷ (test_runtime, read_parameter 0 "size")
    ∷ (test_runtime, tick draws)
    ∷ []

abbrev session_of : Outcome Session → Session
session_of (ok s) = s
session_of _ = session

abbrev after_requests : Session
after_requests = session_of (serve_all no_format server session requests)

abbrev ready_globals : Globals
ready_globals = record { instance = some session; logger = none }

-- A second initialization, a check, and the shutdown.
abbrev program : List (Runtime × String × Operation)
program =
    (test_runtime, "12:00", start_default "secret-2" project new_diagnostics)
    ∷ (test_runtime, "12:01", calls (PublicCall.check_gate ada "open"))
    ∷ (test_runtime, "12:02", shuts_down draws)
    ∷ []

abbrev uninitialized : Globals
uninitialized = record { instance = none; logger = none }

abbrev check_open : PublicCall
check_open = PublicCall.check_gate ada "open"

-- An initialization that times out, one with a key of a client, a check, and the shutdown.
abbrev hopeless : List (Runtime × String × Operation)
hopeless =
    (
      test_runtime,
      "12:00",
      start_with "secret-1" (record default_options { has_init_timeout = true }) project
          new_diagnostics false,
    )
    ∷ (test_runtime, "12:01", start_default "client-1" project new_diagnostics)
    ∷ (test_runtime, "12:02", calls check_open)
    ∷ (test_runtime, "12:03", shuts_down draws)
    ∷ []

abbrev hopeless_ends : List Ending
hopeless_ends =
    returned
    ∷ panicked "Must provide a valid SDK key."
    ∷ panicked (must_initialize check_open)
    ∷ returned
    ∷ []

abbrev layer : ConfigBase
layer = new_layer "layout" (some (("title", string "Hi") ∷ ("wide", bool true) ∷ [])) "r" true

ask_all-by_kind_example :
    ask_all layer "title" ("none", record { bits = 0 }, false, end, done)
    ≡ by_kind
        ("title" ∷ [])
        (lookup "title" layer.value)
        ("none", record { bits = 0 }, false, end, done)
unfolding new_layer
ask_all-by_kind_example = ask_all-by_kind layer "title" "none" (record { bits = 0 }) false end done
