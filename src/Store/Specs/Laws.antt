-- ===== src/Store/Specs/Laws.antt =====
-- What a store holds after new specs are set.
use statsig_go_sdk.Prelude.{
  String, ◌≡◌, refl, Bool, true, false, Option, none, some, List, [], ◌∷◌, ◌==◌, ◌||◌, arith,
  if◌then◌else◌,
}
use statsig_go_sdk.Dict.{Dict, lookup, insert, lookup-nil, lookup-insert}
use statsig_go_sdk.Spec.{ConfigSpec, DownloadConfigSpecResponse}
use statsig_go_sdk.Store.State.{
  Store, get_gate, get_dynamic_config, get_layer_config, get_experiment_layer,
}
use statsig_go_sdk.Store.Specs.{
  specs_by_name, layer_of_each, layers_by_experiment, set_config_specs,
}

-- The last spec of a name in the server's list.
abbrev pub last_named : String → List ConfigSpec → Option ConfigSpec
last_named name [] = none
last_named name (spec ∷ specs) = elim (last_named name specs) [
  | some later ↦ some later
  | none ↦ if spec.name == name then some spec else none
]

lookup-specs_by_name :
    (name : String) (specs : List ConfigSpec) (m : Dict ConfigSpec)
    → lookup name (specs_by_name specs m)
      ≡ (elim (last_named name specs) [ some spec ↦ some spec | none ↦ lookup name m ])
unfolding specs_by_name
lookup-specs_by_name name [] m = refl
lookup-specs_by_name name (spec ∷ specs) m = ground (
  arith,
  lookup-specs_by_name name specs (insert spec.name spec m),
  lookup-insert spec.name name spec m,
)

lookup-specs_by_name_nil :
    (name : String) (specs : List ConfigSpec)
    → lookup name (specs_by_name specs []) ≡ last_named name specs
lookup-specs_by_name_nil name specs =
    ground (arith, lookup-specs_by_name name specs [], lookup-nil {0} {V = ConfigSpec} name)

abbrev pub lists : List String → String → Bool
lists [] experiment = false
lists (e ∷ es) experiment = e == experiment || lists es experiment

-- The last layer, in the order of the visit, that lists an experiment.
abbrev pub last_layer : String → Dict (List String) → Option String
last_layer experiment [] = none
last_layer experiment ((layer_name, experiments) ∷ layers) = elim (last_layer experiment layers) [
  | some later ↦ some later
  | none ↦ if lists experiments experiment then some layer_name else none
]

lookup-layer_of_each :
    (experiment layer_name : String) (experiments : List String) (m : Dict String)
    → lookup experiment (layer_of_each layer_name experiments m)
      ≡ (if lists experiments experiment then some layer_name else lookup experiment m)
unfolding layer_of_each
lookup-layer_of_each experiment layer_name [] m = refl
lookup-layer_of_each experiment layer_name (e ∷ es) m = ground (
  arith,
  lookup-layer_of_each experiment layer_name es (insert e layer_name m),
  lookup-insert e experiment layer_name m,
)

lookup-layers_by_experiment :
    (experiment : String) (layers : Dict (List String)) (m : Dict String)
    → lookup experiment (layers_by_experiment layers m)
      ≡ (elim (last_layer experiment layers) [ some l ↦ some l | none ↦ lookup experiment m ])
unfolding layers_by_experiment
lookup-layers_by_experiment experiment [] m = refl
lookup-layers_by_experiment experiment ((layer_name, experiments) ∷ layers) m = ground (
  arith,
  lookup-layers_by_experiment experiment layers (layer_of_each layer_name experiments m),
  lookup-layer_of_each experiment layer_name experiments m,
)

lookup-layers_by_experiment_nil :
    (experiment : String) (layers : Dict (List String))
    → lookup experiment (layers_by_experiment layers []) ≡ last_layer experiment layers
lookup-layers_by_experiment_nil experiment layers = ground (
  arith,
  lookup-layers_by_experiment experiment layers [],
  lookup-nil {0} {V = String} experiment,
)

-- After an answer with updates, a gate, config or layer is known exactly by the last spec of its
-- name in the answer's list, and an experiment belongs to the last layer that lists it: what the
-- store knew before is forgotten. The time of the last sync is the answer's.
pub set_config_specs-known :
    (s : Store) (specs : DownloadConfigSpecResponse)
    → specs.has_updates ≡ true
    → let (s', success) = set_config_specs s specs in
      (success ≡ true)
      × (s'.last_sync_time ≡ specs.time)
      × ((name : String)
          → (get_gate s' name ≡ last_named name specs.feature_gates)
            × (get_dynamic_config s' name ≡ last_named name specs.dynamic_configs)
            × (get_layer_config s' name ≡ last_named name specs.layer_configs)
            × (get_experiment_layer s' name ≡ last_layer name specs.layers))
unfolding set_config_specs
set_config_specs-known s specs updates = rw updates (
  refl,
  refl,
  λ name. (
    lookup-specs_by_name_nil name specs.feature_gates,
    lookup-specs_by_name_nil name specs.dynamic_configs,
    lookup-specs_by_name_nil name specs.layer_configs,
    lookup-layers_by_experiment_nil name specs.layers,
  ),
)

-- An answer without updates is refused and changes nothing but the sampling rates.
pub set_config_specs-no_updates :
    (s : Store) (specs : DownloadConfigSpecResponse)
    → specs.has_updates ≡ false
    → set_config_specs s specs
      ≡ (record s { sampling_rates = specs.diagnostics_sample_rates }, false)
unfolding set_config_specs
set_config_specs-no_updates s specs unchanged = rw unchanged
