-- ===== src/Types/Kinds.antt =====
-- The five typed getters of a config, beside each other.
use statsig_go_sdk.Prelude.{
  String, ◌≡◌, refl, Bool, Option, none, some, List, [], ◌∷◌, ◌++◌, append-nil, if◌then◌else◌,
}
use statsig_go_sdk.Dict.{lookup}
use statsig_go_sdk.Value.{Float64, Value, bool, string, float64, array, object, Values, Fields}
use statsig_go_sdk.Types.{ConfigBase}
use statsig_go_sdk.Types.Getters.{
  log_exposure, as_string, as_number, as_bool, as_slice, as_map, found, get_typed, get_string,
  get_number, get_bool, get_slice, get_map,
}

-- What the five getters give for one parameter: their values, and the exposures that they log.
abbrev pub Answers : Type 0
Answers = (String × Float64 × Bool × Values × Fields) × List String

abbrev pub ask_all : ConfigBase → String → String × Float64 × Bool × Values × Fields → Answers
ask_all d key (s, x, b, xs, fs) = (
  (
    (get_string d key s).0,
    (get_number d key x).0,
    (get_bool d key b).0,
    (get_slice d key xs).0,
    (get_map d key fs).0,
  ),
  (get_string d key s).1
      ++ ((get_number d key x).1
          ++ ((get_bool d key b).1 ++ ((get_slice d key xs).1 ++ (get_map d key fs).1))),
)

-- By the kind of the stored value: it replaces the fallback of that kind and is exposed; any other
-- value, and none, leaves all fallbacks and exposes nothing.
abbrev pub by_kind :
    List String → Option Value → String × Float64 × Bool × Values × Fields → Answers
by_kind exposed (some (string v)) (s, x, b, xs, fs) = ((v, x, b, xs, fs), exposed)
by_kind exposed (some (float64 v)) (s, x, b, xs, fs) = ((s, v, b, xs, fs), exposed)
by_kind exposed (some (bool v)) (s, x, b, xs, fs) = ((s, x, v, xs, fs), exposed)
by_kind exposed (some (array v)) (s, x, b, xs, fs) = ((s, x, b, v, fs), exposed)
by_kind exposed (some (object v)) (s, x, b, xs, fs) = ((s, x, b, xs, v), exposed)
by_kind exposed _ fallbacks = (fallbacks, [])

found_all :
    (d : ConfigBase) (key s : String) (x : Float64) (b : Bool) (xs : Values) (fs : Fields)
    (o : Option Value)
    → (
      (
        (found as_string d key s o).0,
        (found as_number d key x o).0,
        (found as_bool d key b o).0,
        (found as_slice d key xs o).0,
        (found as_map d key fs o).0,
      ),
      (found as_string d key s o).1
          ++ ((found as_number d key x o).1
              ++ ((found as_bool d key b o).1
                  ++ ((found as_slice d key xs o).1 ++ (found as_map d key fs o).1))),
    )
      ≡ by_kind (log_exposure d key) o (s, x, b, xs, fs)
found_all d key s x b xs fs none = refl
found_all d key s x b xs fs (some (string v)) = rw (append-nil (log_exposure d key)) refl
found_all d key s x b xs fs (some (float64 v)) = rw (append-nil (log_exposure d key)) refl
found_all d key s x b xs fs (some (bool v)) = rw (append-nil (log_exposure d key)) refl
found_all d key s x b xs fs (some (array v)) = rw (append-nil (log_exposure d key)) refl
found_all d key s x b xs fs (some (object v)) = refl
found_all d key s x b xs fs (some _) = refl

-- Exactly the getter of the stored value's kind gives it, and its read is exposed once, if the
-- config logs exposures; the other four give their fallbacks and expose nothing. All five fall back
-- if the parameter is missing, or has a value of none of the five kinds.
pub ask_all-by_kind :
    (d : ConfigBase) (key s : String) (x : Float64) (b : Bool) (xs : Values) (fs : Fields)
    → ask_all d key (s, x, b, xs, fs)
      ≡ by_kind (if d.has_log_exposure then key ∷ [] else []) (lookup key d.value) (s, x, b, xs, fs)
unfolding get_string get_number get_bool get_slice get_map get_typed log_exposure
ask_all-by_kind d key s x b xs fs = found_all d key s x b xs fs (lookup key d.value)
