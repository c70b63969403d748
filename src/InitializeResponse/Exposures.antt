-- ===== src/InitializeResponse/Exposures.antt =====
-- The cleaning of exposures: each gate, value and rule once.
use statsig_go_sdk.Prelude.{
  ℕ, suc, String, ◌≡◌, refl, Bool, false, not, ◌&&◌, ◌||◌, List, [], ◌∷◌, ◌==◌, arith, eq_iff,
  if◌then◌else◌,
}
use statsig_go_sdk.Evaluator.Result.{Exposure}
use statsig_go_sdk.InitializeResponse.{exposure_key, is_key_of, clean_from, clean_exposures}

-- How many exposures of a list have a key.
abbrev pub count_key : String → List Exposure → ℕ
count_key key [] = 0
count_key key (exposure ∷ exposures) =
    if exposure_key exposure == key then suc (count_key key exposures) else count_key key exposures

abbrev pub has_key : String → List Exposure → Bool
has_key key [] = false
has_key key (exposure ∷ exposures) = exposure_key exposure == key || has_key key exposures

count_key-clean_from :
    (key : String) (exposures : List Exposure) (seen : List String)
    → count_key key (clean_from seen exposures)
      ≡ (if has_key key exposures && not (is_key_of key seen) then 1 else 0)
unfolding clean_from
count_key-clean_from key [] seen = refl
count_key-clean_from key (exposure ∷ exposures) seen = ground (
  arith,
  count_key-clean_from key exposures seen,
  count_key-clean_from key exposures (exposure_key exposure ∷ seen),
  eq_iff (exposure_key exposure) key,
)

-- Keys that do not occur make no difference to what is cleaned.
clean_from-clean_from :
    (exposures : List Exposure) (seen : List String)
    → clean_from seen (clean_from seen exposures) ≡ clean_from seen exposures
unfolding clean_from
clean_from-clean_from [] seen = refl
clean_from-clean_from (exposure ∷ exposures) seen = ground (
  arith,
  clean_from-clean_from exposures seen,
  clean_from-clean_from exposures (exposure_key exposure ∷ seen),
)

-- Cleaned exposures have each key of the original exactly once, and no other; cleaning them again
-- changes nothing.
pub clean_exposures-distinct :
    (exposures : List Exposure)
    → ((key : String)
        → count_key key (clean_exposures exposures) ≡ (if has_key key exposures then 1 else 0))
      × (clean_exposures (clean_exposures exposures) ≡ clean_exposures exposures)
unfolding clean_exposures
clean_exposures-distinct exposures = (
  λ key. ground (arith, count_key-clean_from key exposures []),
  clean_from-clean_from exposures [],
)
