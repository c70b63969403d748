-- ===== src/Diagnostics.antt =====
-- diagnostics.go: the markers of a context, and their sampling. A random number is drawn at most
-- once for each key in a serialization: the draws are a function of the key, below ten thousand.
pub mod Sampling
pub mod Markers
use statsig_go_sdk.Prelude.{
  ℕ, String, Bool, true, false, not, Option, none, some, List, [], ◌∷◌, ◌++◌, if◌then◌else◌,
}
use statsig_go_sdk.Prelude.Int.{ℤ, pos, ltb_ℤ}
use statsig_go_sdk.Dict.{Dict, lookup, insert}

-- `DiagnosticsContext`
pub data DiagnosticsContext : Type 0 where
  initialize config_sync api_call : DiagnosticsContext

-- `marker`, with its tags. Its key is not nil: every marker is built from a key on.
pub record Marker : Type 0 where
  pub key : String
  pub step : Option String
  pub action : Option String
  pub timestamp : ℤ
  pub success : Option Bool
  pub status_code : Option ℤ
  pub sdk_region : Option String
  pub id_list_count : Option ℕ
  pub url : Option String

pub record DiagnosticsBase : Type 0 where
  pub context : DiagnosticsContext
  pub markers : List Marker
  pub sampling_rates : Dict ℤ

pub record Diagnostics : Type 0 where
  pub init_diagnostics : DiagnosticsBase
  pub sync_diagnostics : DiagnosticsBase
  pub api_diagnostics : DiagnosticsBase

abbrev pub empty_base : DiagnosticsContext → DiagnosticsBase
empty_base context = record { context = context; markers = []; sampling_rates = [] }

-- `newDiagnostics`
abbrev pub new_diagnostics : Diagnostics
new_diagnostics = record {
  init_diagnostics = empty_base initialize;
  sync_diagnostics = empty_base config_sync;
  api_diagnostics = empty_base api_call;
}

-- `mark`
unfoldable pub mark : DiagnosticsBase → Marker → ℤ → DiagnosticsBase
mark d m now = record d { markers = d.markers ++ (record m { timestamp = now } ∷ []) }

-- `updateSamplingRates`
abbrev pub update_sampling_rates : DiagnosticsBase → Dict ℤ → DiagnosticsBase
update_sampling_rates d rates = record d { sampling_rates = rates }

-- `clearMarkers`
abbrev pub clear_markers : DiagnosticsBase → DiagnosticsBase
clear_markers d = record d { markers = [] }

module _ (draw : String → ℕ) (rates : Dict ℤ) where
  -- `sample`
  abbrev pub sample : String → ℤ → Bool
  sample key rate = ltb_ℤ (pos (draw key)) rate

  abbrev pub sampled_by_rate : String → Option ℤ → Bool
  sampled_by_rate key none = false
  sampled_by_rate key (some rate) = sample key rate

  -- `sampledKeys[markerKey]`, and what the loop adds to `sampledKeys`.
  abbrev decide_key : Dict Bool → String → Option Bool → Dict Bool × Bool
  decide_key sampled key (some b) = (sampled, b)
  decide_key sampled key none =
      let b = sampled_by_rate key (lookup key rates) in (insert key b sampled, b)

  -- The loop of `serializeWithSampling`.
  unfoldable pub sample_markers : Dict Bool → List Marker → List Marker
  sample_markers sampled [] = []
  sample_markers sampled (m ∷ ms) =
      let (sampled', b) = decide_key sampled m.key (lookup m.key sampled) in
      let rest = sample_markers sampled' ms in if b then rest else m ∷ rest

-- `serializeWithSampling`: the markers beside the context.
unfoldable pub serialize_with_sampling : (String → ℕ) → DiagnosticsBase → List Marker
unfolding sample_markers
serialize_with_sampling draw d = sample_markers draw d.sampling_rates [] d.markers
