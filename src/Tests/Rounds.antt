-- ===== src/Tests/Rounds.antt =====
-- A store through polls, an adapter that keeps its specs, and the markers of its syncs.
use statsig_go_sdk.Prelude.{
  ◌+◌, ◌*◌, ◌≤◌, String, ◌≡◌, refl, ◌↔◌, Bool, true, false, none, some, List, [], ◌∷◌, arith,
}
use statsig_go_sdk.Prelude.Int.{pos}
use statsig_go_sdk.Runtime.{Runtime}
use statsig_go_sdk.Store.State.{Store, empty_store}
use statsig_go_sdk.Store.Sync.{failed, received, sync_outdated_max, new_store_internal}
use statsig_go_sdk.Store.Sync.Refinement.{Reflects}
use statsig_go_sdk.Store.Sync.Rounds.{
  Round, specs_round, lists_round, stop_round, run_rounds, model_rounds, created_model,
  run_rounds-Reflects,
}
use statsig_go_sdk.Store.Sync.Liveness.{failing_polls, failing_polls-reported}
use statsig_go_sdk.Store.Markers.{
  Exchange, ListExchange, MarkedCall, server_markers, adapter_markers, bootstrap_markers,
  id_lists_markers, call_markers,
}
use statsig_go_sdk.Store.Markers.Pairs.{IsSpoken}
use statsig_go_sdk.Store.Markers.Laws.{IsWhole, markers-IsWhole}
use statsig_go_sdk.Tests.Data.{test_runtime}
use statsig_go_sdk.Tests.Syncs.{answer, decoding, setup, served, servers}

abbrev later_rounds : List Round
later_rounds =
    specs_round true none failed
    ∷ lists_round served servers
    ∷ specs_round false none (received (record answer { time = pos 8 }))
    ∷ stop_round
    ∷ specs_round false none (received answer)
    ∷ []

run_rounds-Reflects_example :
    (s s' : Store) × ((new_store_internal test_runtime setup none
        (received answer)
        served
        servers).0
      ≡ some s)
    × (run_rounds test_runtime setup s later_rounds ≡ some s')
    × Reflects
        (model_rounds test_runtime setup
          (created_model test_runtime setup none (received answer))
          later_rounds).current
        s'
run_rounds-Reflects_example =
    run_rounds-Reflects test_runtime setup none (received answer) served servers later_rounds

failing_polls-reported_example :
    ((failing_polls test_runtime setup 13 empty_store).1 ≡ [])
    ↔ ((0 + 13) * setup.config_sync_interval ≤ sync_outdated_max)
failing_polls-reported_example =
    failing_polls-reported test_runtime setup 13 empty_store refl (omega arith)

markers-IsWhole_example :
    ((exchange : Exchange) → IsWhole (server_markers decoding empty_store exchange))
    × ((text : String) → IsWhole (adapter_markers decoding empty_store (some text)))
    × IsSpoken (adapter_markers decoding empty_store none)
    × ((text : String) → IsWhole (bootstrap_markers decoding empty_store text))
    × ((exchange : ListExchange) → IsWhole (id_lists_markers exchange))
    × ((call : MarkedCall) (panicked : Bool) → IsWhole (call_markers call panicked))
markers-IsWhole_example = markers-IsWhole decoding empty_store

-- A runtime whose JSON of the answer is read back.
abbrev keeping : Runtime
keeping = record decoding { marshal_specs = λ specs. some "{}" }
