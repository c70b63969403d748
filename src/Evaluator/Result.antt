-- ===== src/Evaluator/Result.antt =====
-- evaluator.go: `evalResult`, and the outcome of an evaluation that may panic.
use statsig_go_sdk.Prelude.{
  String, ◌≡◌, refl, ◌≢◌, Bool, true, false, Option, none, some, List, [], if◌then◌else◌,
}
use statsig_go_sdk.Dict.{Dict}
use statsig_go_sdk.Types.{ConfigBase, zero_config}
use statsig_go_sdk.Store.State.{EvaluationDetails}

-- `map[string]string`
abbrev pub Exposure : Type 0
Exposure = Dict String

pub record EvalResult : Type 0 where
  pub pass : Bool
  pub config_value : ConfigBase
  pub fetch_from_server : Bool
  pub id : String
  pub secondary_exposures : List Exposure
  pub undelegated_secondary_exposures : List Exposure
  pub config_delegate : String
  pub explicit_parameters : Dict Bool
  pub evaluation_details : Option EvaluationDetails
  pub is_experiment_group : Option Bool

-- `new(evalResult)`
abbrev pub zero_result : EvalResult
zero_result = record {
  pass = false;
  config_value = zero_config;
  fetch_from_server = false;
  id = "";
  secondary_exposures = [];
  undelegated_secondary_exposures = [];
  config_delegate = "";
  explicit_parameters = [];
  evaluation_details = none;
  is_experiment_group = none;
}

pub data Panic : Type 0 where
  -- "Statsig Evaluation Depth Exceeded"
  depth_exceeded : Panic
  -- a method call on a nil interface, or a read through a nil pointer
  nil_dereference : Panic
  -- an assignment to an entry of a nil map
  nil_map : Panic

-- `out_of_fuel` is of the model alone: the recursion was cut before the code's own limit.
pub data Outcome {ℓ} (A : Type ℓ) : Type ℓ where
  ok : A → Outcome A
  panic : Panic → Outcome A
  out_of_fuel : Outcome A

infixl 5 ◌>>=◌
abbrev pub ◌>>=◌ {ℓ κ} : {A : Type ℓ} {B : Type κ} → Outcome A → (A → Outcome B) → Outcome B
ok a >>= f = f a
panic p >>= f = panic p
out_of_fuel >>= f = out_of_fuel

-- A dereference that panics when there is nothing behind it.
abbrev pub deref {ℓ} : {A : Type ℓ} → Option A → Outcome A
deref none = panic nil_dereference
deref (some a) = ok a

-- The model has an answer: a result, or a panic of the code.
abbrev pub Ends {ℓ} : {A : Type ℓ} → Outcome A → Type ℓ
Ends m = m ≢ out_of_fuel

pub Ends-ok {ℓ} : {A : Type ℓ} (a : A) → Ends (ok a)
Ends-ok a = λ e. cc

pub Ends-if {ℓ} :
    {A : Type ℓ} (b : Bool) {m n : Outcome A} → Ends m → Ends n → Ends (if b then m else n)
Ends-if true h g = h
Ends-if false h g = g

pub Ends-deref {ℓ} : {A : Type ℓ} (o : Option A) → Ends (deref o)
Ends-deref none = λ e. cc
Ends-deref (some a) = λ e. cc

pub Ends->>= {ℓ κ} :
    {A : Type ℓ} {B : Type κ} (m : Outcome A) (f : A → Outcome B)
    → Ends m
    → ((a : A) → Ends (f a))
    → Ends (m >>= f)
Ends->>= (ok a) f h g = g a
Ends->>= (panic p) f h g = λ e. cc
Ends->>= out_of_fuel f h g = absurd (h refl)

pub >>=-eq {ℓ κ} :
    {A : Type ℓ} {B : Type κ} (m n : Outcome A) (f g : A → Outcome B)
    → m ≡ n
    → ((a : A) → f a ≡ g a)
    → (m >>= f) ≡ (n >>= g)
>>=-eq (ok a) n f g e h = rw (← e) (h a)
>>=-eq (panic p) n f g e h = rw (← e) refl
>>=-eq out_of_fuel n f g e h = rw (← e) refl

pub >>=_assoc {ℓ κ μ} :
    {A : Type ℓ} {B : Type κ} {C : Type μ} (m : Outcome A) (f : A → Outcome B) (g : B → Outcome C)
    → ((m >>= f) >>= g) ≡ (m >>= λ a. f a >>= g)
>>=_assoc (ok a) f g = refl
>>=_assoc (panic p) f g = refl
>>=_assoc out_of_fuel f g = refl
