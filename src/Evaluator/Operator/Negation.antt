-- ===== src/Evaluator/Operator/Negation.antt =====
-- The operators that come in pairs.
use statsig_go_sdk.Prelude.{ℕ, String, ◌≡◌, refl, Bool, true, false, not, Option, none, some, arith}
use statsig_go_sdk.Prelude.Int.{ℤ, pos, negsuc, ltb_ℤ, leb_ℤ, eq_ℤ}
use statsig_go_sdk.Value.{Value, string}
use statsig_go_sdk.Runtime.{Runtime}
use statsig_go_sdk.Store.State.{Store}
use statsig_go_sdk.Evaluator.Version.{
  before_dash, is_blank, compare_versions, compare_versions_helper,
}
use statsig_go_sdk.Evaluator.Version.Order.{compare_versions_helper-opposite, opposite}
use statsig_go_sdk.Evaluator.Operator.{
  Verdict, decided, membership, in_segment_list, run_operator, string_operator, time_operator,
}

-- The other answer; a panic stays a panic.
abbrev pub flipped : Verdict → Verdict
flipped none = none
flipped (some (pass, server)) = some (not pass, server)

module _ (r : Runtime) (s : Store) (value target : Value) where
  membership-flipped : (o : Option Bool) → membership r s true o ≡ flipped (membership r s false o)
  membership-flipped none = refl
  membership-flipped (some b) = refl

  -- Each negated operator gives the other answer, on every pair of values: `none` to `any`,
  -- `none_case_sensitive` to `any_case_sensitive`, `str_contains_none` to `str_contains_any`, `neq`
  -- to `eq`, and `not_in_segment_list` to `in_segment_list`, which panic alike.
  pub run_operator-negated :
      (run_operator r s "none" value target ≡ flipped (run_operator r s "any" value target))
      × (run_operator r s "none_case_sensitive" value target
          ≡ flipped (run_operator r s "any_case_sensitive" value target))
      × (run_operator r s "str_contains_none" value target
          ≡ flipped (run_operator r s "str_contains_any" value target))
      × (run_operator r s "neq" value target ≡ flipped (run_operator r s "eq" value target))
      × (run_operator r s "not_in_segment_list" value target
          ≡ flipped (run_operator r s "in_segment_list" value target))
  unfolding run_operator string_operator time_operator
  run_operator-negated =
      (refl, refl, refl, refl, membership-flipped (in_segment_list r s target value))

-- What `compareVersions` takes for a version: a text that has something before its first dash.
abbrev pub IsVersion : String → Type 0
IsVersion s = is_blank (before_dash s) ≡ false

-- The tests of a comparison's sign.
sign_tests :
    (n : ℤ)
    → (decided (leb_ℤ (pos 0) n) ≡ flipped (decided (ltb_ℤ n (pos 0))))
      × (decided (ltb_ℤ (pos 0) n) ≡ flipped (decided (leb_ℤ n (pos 0))))
      × (decided (not (eq_ℤ n (pos 0))) ≡ flipped (decided (eq_ℤ n (pos 0))))
      × (decided (ltb_ℤ (pos 0) (opposite n)) ≡ decided (ltb_ℤ n (pos 0)))
sign_tests (pos ℕ.zero) = ground arith
sign_tests (pos (ℕ.suc n)) = ground arith
sign_tests (negsuc n) = ground arith

module _ (r : Runtime) (s : Store) where
  -- On two versions: `version_gte` is the negation of `version_lt`, `version_gt` that of
  -- `version_lte`, `version_neq` that of `version_eq`, and swapping the versions turns
  -- `version_lt` into `version_gt`.
  pub run_operator-versions :
      (a b : String)
      → IsVersion a
      → IsVersion b
      → (run_operator r s "version_gte" (string a) (string b)
          ≡ flipped (run_operator r s "version_lt" (string a) (string b)))
        × (run_operator r s "version_gt" (string a) (string b)
            ≡ flipped (run_operator r s "version_lte" (string a) (string b)))
        × (run_operator r s "version_neq" (string a) (string b)
            ≡ flipped (run_operator r s "version_eq" (string a) (string b)))
        × (run_operator r s "version_gt" (string b) (string a)
            ≡ run_operator r s "version_lt" (string a) (string b))
  unfolding run_operator compare_versions
  run_operator-versions a b h g =
      rw (h, g, compare_versions_helper-opposite (before_dash a) (before_dash b))
        (sign_tests (compare_versions_helper (before_dash a) (before_dash b)))
