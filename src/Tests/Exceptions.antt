-- ===== src/Tests/Exceptions.antt =====
-- Two goroutines that log the same exception before the first of them reports it.
use statsig_go_sdk.Prelude.{◌+◌, ◌≡◌, refl, String, Option, none, some, [], ◌∷◌}
use statsig_go_sdk.ErrorBoundary.{is_seen, check_seen, log_exception}
use statsig_go_sdk.ErrorBoundary.Laws.{count}
use statsig_go_sdk.ErrorBoundary.Concurrent.{Reporting, Run, begin, checked, reported, Run-once}

abbrev failure : Option String
failure = some "timeout"

abbrev one_report : Reporting
one_report = record {
  boundary = record { seen = "Unknown" ∷ "timeout" ∷ [] };
  pending = "Unknown" ∷ [];
  made = "timeout" ∷ [];
}

overlapping : Run (failure ∷ none ∷ failure ∷ []) one_report
unfolding log_exception check_seen is_seen
overlapping =
    checked (reported (checked (checked begin failure) none) ("Unknown" ∷ []) "timeout" [] refl)
      failure

Run-once_example : count "timeout" one_report.pending + count "timeout" one_report.made ≡ 1
Run-once_example = Run-once "timeout" overlapping
