-- ===== src/Evaluator/Version.antt =====
-- evaluator.go: `compareVersionsHelper` and `compareVersions`.
pub mod Order
use mathlib.Core.List.{head?}
use statsig_go_sdk.Prelude.{
  ℕ, zero, suc, ◌≡◌, refl, Bool, true, false, ◌||◌, Option, none, some, List, [], ◌∷◌, max, length,
  String, if◌then◌else◌,
}
use statsig_go_sdk.Prelude.Int.{ℤ, pos, negsuc, ltb_ℤ}
use statsig_go_sdk.Text.{Codes, codes, split, split_first}
use statsig_go_sdk.Text.Parse.{parse_int}
use statsig_go_sdk.Value.{Value, string}

-- The part at the front, or "0" past the end, and its number.
abbrev pub part_number : List Codes → ℤ
part_number [] = (parse_int (codes "0")).number
part_number (p ∷ ps) = (parse_int p).number

abbrev pub next_parts : List Codes → List Codes
next_parts [] = []
next_parts (p ∷ ps) = ps

-- The loop, over the rounds that are left: the parts from index `i` on.
unfoldable pub compare_parts : ℕ → List Codes → List Codes → ℤ
compare_parts zero ps qs = pos 0
compare_parts (suc n) ps qs =
    let rest = compare_parts n (next_parts ps) (next_parts qs) in
    if ltb_ℤ (part_number ps) (part_number qs)
    then negsuc 0
    else if ltb_ℤ (part_number qs) (part_number ps)
    then pos 1
    else rest

-- `compareVersionsHelper`: as many rounds as the longer version has parts (`maxInt`).
unfoldable pub compare_versions_helper : Codes → Codes → ℤ
unfolding compare_parts parse_int split
compare_versions_helper v1 v2 =
    compare_parts (max (length (split b'.' v1)) (length (split b'.' v2))) (split b'.' v1)
      (split b'.' v2)

-- `strings.Split(s, "-")[0]`
unfoldable pub before_dash : String → Codes
before_dash s = (split_first b'-' (codes s)).0

abbrev pub is_blank : Codes → Bool
is_blank [] = true
is_blank (c ∷ s) = false

module _ (test : Codes → Codes → Bool) where
  -- `compareVersions`
  unfoldable pub compare_versions : Value → Value → Bool
  unfolding before_dash split_first
  compare_versions (string a) (string b) =
      if is_blank (before_dash a) || is_blank (before_dash b)
      then false
      else test (before_dash a) (before_dash b)
  compare_versions _ _ = false
