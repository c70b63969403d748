-- ===== src/ErrorBoundary.antt =====
-- error_boundary.go: exceptions are reported once each, and a captured task never panics. The
-- requests that report exceptions are effects; their answers are dropped.
pub mod Laws
pub mod Concurrent
use statsig_go_sdk.Prelude.{
  ℕ, String, Bool, true, false, ◌||◌, Option, none, some, List, [], ◌∷◌, ◌++◌, ◌==◌, if◌then◌else◌,
}

-- The part of `errorBoundary` that changes: the keys of `seen`.
pub record Boundary : Type 0 where
  pub seen : List String

abbrev pub new_error_boundary : Boundary
new_error_boundary = record { seen = [] }

unfoldable pub is_seen : String → List String → Bool
is_seen exception [] = false
is_seen exception (e ∷ es) = e == exception || is_seen exception es

-- `checkSeen`
unfoldable pub check_seen : Boundary → String → Boundary × Bool
unfolding is_seen
check_seen b exception =
    if is_seen exception b.seen then (b, true) else (record { seen = exception ∷ b.seen }, false)

-- The message of an error; nil is "Unknown".
abbrev pub exception_string : Option String → String
exception_string none = "Unknown"
exception_string (some message) = message

-- `logException`: the state and the exceptions that are reported. The body of a report always has a
-- JSON form.
unfoldable pub log_exception : Boundary → Option String → Boundary × List String
unfolding check_seen
log_exception b exception =
    let (b', seen) = check_seen b (exception_string exception) in
    (b', if seen then [] else exception_string exception ∷ [])

-- A task that may panic: it ends with a value, or with the message of its panic; either way it
-- leaves a state.
pub data Task {ℓ κ} (S : Type ℓ) (A : Type κ) : Type (ℓ ⊔ κ) where
  returned : S → A → Task S A
  panicked : S → String → Task S A

pub record Captured {ℓ κ} (S : Type ℓ) (A : Type κ) : Type (ℓ ⊔ κ) where
  pub value : A
  pub state : S
  pub boundary : Boundary
  pub reports : List String

-- `captureCheckGate`, `captureGetConfig`, `captureGetLayer`,
-- `captureGetClientInitializeResponse` and `captureVoid` with `ebRecover`, which are alike but for
-- their diagnostics: a task that panics gives the zero value of its result.
module _ {ℓ κ} {S : Type ℓ} {A : Type κ} (zero_value : A) where
  unfoldable pub capture : Boundary → Task S A → Captured S A
  unfolding log_exception
  capture b (returned s a) = record { value = a; state = s; boundary = b; reports = [] }
  capture b (panicked s message) =
      let (b', reports) = log_exception b (some message) in
      record { value = zero_value; state = s; boundary = b'; reports = reports }
