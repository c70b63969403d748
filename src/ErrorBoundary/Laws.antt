-- ===== src/ErrorBoundary/Laws.antt =====
-- Which exceptions are reported.
use statsig_go_sdk.Prelude.{
  ℕ, suc, String, ◌≡◌, refl, Bool, false, not, ◌&&◌, ◌||◌, Option, List, [], ◌∷◌, ◌++◌, ◌==◌, arith,
  eq_iff, if◌then◌else◌,
}
use statsig_go_sdk.ErrorBoundary.{Boundary, is_seen, check_seen, exception_string, log_exception}

-- The reports of a sequence of exceptions.
abbrev pub log_all : Boundary → List (Option String) → List String
log_all b [] = []
log_all b (exception ∷ exceptions) =
    let (b', reports) = log_exception b exception in reports ++ log_all b' exceptions

abbrev pub count : String → List String → ℕ
count message [] = 0
count message (m ∷ ms) = if m == message then suc (count message ms) else count message ms

abbrev pub raised : String → List (Option String) → Bool
raised message [] = false
raised message (exception ∷ exceptions) =
    exception_string exception == message || raised message exceptions

-- However often exceptions are logged, in whatever order, each message is reported exactly once if
-- it was raised and not seen before, and not at all otherwise.
pub log_all-count :
    (message : String) (exceptions : List (Option String)) (b : Boundary)
    → count message (log_all b exceptions)
      ≡ (if raised message exceptions && not (is_seen message b.seen) then 1 else 0)
unfolding log_exception check_seen is_seen
log_all-count message [] b = refl
log_all-count message (exception ∷ exceptions) b = ground (
  arith,
  log_all-count message exceptions b,
  log_all-count message exceptions (record { seen = exception_string exception ∷ b.seen }),
  eq_iff (exception_string exception) message,
)
