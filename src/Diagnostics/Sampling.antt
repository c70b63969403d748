-- ===== src/Diagnostics/Sampling.antt =====
-- The sampling of a context's markers.
use statsig_go_sdk.Prelude.{
  ℕ, String, ◌≡◌, refl, Bool, false, none, some, List, [], ◌∷◌, arith, eq_iff, if◌then◌else◌,
  Option-cases, inl, inr,
}
use statsig_go_sdk.Prelude.Int.{ℤ, pos, ltb_ℤ}
use statsig_go_sdk.Dict.{Dict, lookup, insert, lookup-insert}
use statsig_go_sdk.Diagnostics.{
  Marker, DiagnosticsBase, sample_markers, sampled_by_rate, serialize_with_sampling,
}

-- The markers of the keys that are kept.
abbrev pub keep_keys : (String → Bool) → List Marker → List Marker
keep_keys dropped [] = []
keep_keys dropped (m ∷ ms) =
    if dropped m.key then keep_keys dropped ms else m ∷ keep_keys dropped ms

module _ (draw : String → ℕ) (rates : Dict ℤ) where
  abbrev is_dropped : String → Bool
  is_dropped key = sampled_by_rate draw rates key (lookup key rates)

  -- What is remembered of a key is what its rate and its draw say.
  Agrees : Dict Bool → Type 0
  Agrees sampled = (key : String) (b : Bool) → lookup key sampled ≡ some b → b ≡ is_dropped key

  Agrees-insert :
      (sampled : Dict Bool) (key : String)
      → Agrees sampled
      → Agrees (insert key (is_dropped key) sampled)
  unfolding Agrees
  Agrees-insert sampled key h other b e =
      ground (arith, lookup-insert key other (is_dropped key) sampled, h other b, eq_iff key other)

  sample_markers-keep_keys :
      (ms : List Marker) (sampled : Dict Bool)
      → Agrees sampled
      → sample_markers draw rates sampled ms ≡ keep_keys is_dropped ms
  unfolding sample_markers Agrees
  sample_markers-keep_keys [] sampled h = refl
  sample_markers-keep_keys (m ∷ ms) sampled h = elim (Option-cases (lookup m.key sampled)) [
    | inl new ↦
        rw
          (
            new,
            sample_markers-keep_keys ms (insert m.key (is_dropped m.key) sampled)
                (Agrees-insert sampled m.key h),
          )
          refl
    | inr (b, old) ↦ rw (old, h m.key b old, sample_markers-keep_keys ms sampled h) refl
  ]

-- A serialization keeps the order of the markers, and keeps or drops all markers of a key together:
-- a key without a rate is kept, and a key with a rate is dropped if its draw is below the rate.
pub serialize_with_sampling-keep_keys :
    (draw : String → ℕ) (d : DiagnosticsBase)
    → serialize_with_sampling draw d
      ≡ keep_keys
          (λ key. elim (lookup key d.sampling_rates) [
            | none ↦ false
            | some rate ↦ ltb_ℤ (pos (draw key)) rate
          ])
          d.markers
unfolding serialize_with_sampling lookup Agrees
serialize_with_sampling-keep_keys draw d =
    sample_markers-keep_keys draw d.sampling_rates d.markers [] (λ key b e. cc)
