-- ===== src/ErrorBoundary/Concurrent.antt =====
-- error_boundary.go: `logException` by goroutines that overlap. `checkSeen` holds the lock, so that
-- it is one step; the report follows in a step of its own, after any steps of the others.
use statsig_go_sdk.Prelude.{
  ℕ, ◌+◌, String, ◌≡◌, refl, ◌∙◌, subst, Bool, Option, List, [], ◌∷◌, ◌++◌, ◌==◌, arith, eq_iff,
  if◌then◌else◌,
}
use statsig_go_sdk.ErrorBoundary.{
  Boundary, new_error_boundary, is_seen, check_seen, exception_string, log_exception,
}
use statsig_go_sdk.ErrorBoundary.Laws.{count, raised}

-- The boundary, the reports that goroutines have still to make, and those that were made.
pub record Reporting : Type 0 where
  pub boundary : Boundary
  pub pending : List String
  pub made : List String

-- The runs of a boundary, with the exceptions that were logged, the last one first.
pub data Run : List (Option String) → Reporting → Type 0 where
  begin : Run [] (record { boundary = new_error_boundary; pending = []; made = [] })
  checked :
      {logged : List (Option String)} {x : Reporting}
      → Run logged x
      → (exception : Option String)
      → Run (exception ∷ logged) (record x {
        boundary = (log_exception x.boundary exception).0;
        pending = (log_exception x.boundary exception).1 ++ x.pending;
      })
  reported :
      {logged : List (Option String)} {x : Reporting}
      → Run logged x
      → (before : List String) (message : String) (after : List String)
      → x.pending ≡ before ++ message ∷ after
      → Run logged (record x { pending = before ++ after; made = message ∷ x.made })

count-append : (m : String) (xs ys : List String) → count m (xs ++ ys) ≡ count m xs + count m ys
count-append m [] ys = omega arith
count-append m (x ∷ xs) ys = ground (arith, count-append m xs ys)

abbrev once : Bool → ℕ
once b = if b then 1 else 0

count-cons : (m x : String) (xs : List String) → count m (x ∷ xs) ≡ once (x == m) + count m xs
count-cons m x xs = ground arith

-- A report that is made is pending no more.
moved :
    (m message : String) (before after made : List String)
    → count m (before ++ after) + count m (message ∷ made)
      ≡ count m (before ++ message ∷ after) + count m made
moved m message before after made = omega (
  arith,
  count-append m before after,
  count-append m before (message ∷ after),
  count-cons m message after,
  count-cons m message made,
)

-- The keys of `seen` are the exceptions that were logged.
Run-seen :
    {logged : List (Option String)} {x : Reporting} (m : String)
    → Run logged x
    → is_seen m x.boundary.seen ≡ raised m logged
unfolding is_seen log_exception check_seen
Run-seen m begin = refl
Run-seen m (checked {x = x} run exception) =
    ground (arith, Run-seen m run, eq_iff (exception_string exception) m)
Run-seen m (reported run before message after split) = Run-seen m run

-- However goroutines that log exceptions overlap, a message that was logged is with one of them to
-- be reported or was reported, once in all, and no other message is or was.
pub Run-once :
    {logged : List (Option String)} {x : Reporting} (message : String)
    → Run logged x
    → count message x.pending + count message x.made ≡ (if raised message logged then 1 else 0)
unfolding log_exception check_seen
Run-once m begin = refl
Run-once m (checked {x = x} run exception) =
    ground (arith, Run-once m run, Run-seen m run, eq_iff (exception_string exception) m)
Run-once {logged = logged} m (reported {x = x} run before message after split) =
    moved m message before after x.made
    ∙ subst (λ p. count m p + count m x.made ≡ once (raised m logged)) split (Run-once m run)
