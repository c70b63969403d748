-- ===== src/Client/Sessions/Laws.antt =====
-- A whole session of a client.
use statsig_go_sdk.Prelude.{◌≡◌, []}
use statsig_go_sdk.Runtime.{Runtime}
use statsig_go_sdk.Evaluator.Condition.{Evaluator}
use statsig_go_sdk.Diagnostics.{Diagnostics}
use statsig_go_sdk.Client.Sessions.{Session}

-- Nothing is buffered, seen, handed out, sent or reported.
abbrev pub IsFresh : Session → Type 0
IsFresh s =
    (s.client.logger.events ≡ [])
    × (s.client.boundary.seen ≡ [])
    × (s.layers ≡ [])
    × (s.batches ≡ [])
    × (s.reports ≡ [])
