-- ===== src/Evaluator/Eval/Percentage.antt =====
-- The pass percentage of a rule, at whole percentages.
use statsig_go_sdk.Prelude.{ℕ, ◌*◌, ◌^◌, ◌≤◌, ◌<◌, ◌≡◌, ap, ◌∙◌, true, false, arith, ltb}
use statsig_go_sdk.Prelude.Int.{pos}
use statsig_go_sdk.Runtime.{Runtime}
use statsig_go_sdk.Value.{Float64}
use statsig_go_sdk.Types.{User}
use statsig_go_sdk.Spec.{ConfigRule, ConfigSpec}
use statsig_go_sdk.Evaluator.Eval.{bucket, eval_pass_percent}

-- What IEEE 754 says of whole numbers below 2^53: they are represented exactly, so they are
-- compared as numbers, and a product that stays below is exact.
pub record HasExactIntegers (r : Runtime) : Type 0 where
  pub lt_exact :
      (n m : ℕ)
      → n < 2 ^ 53
      → m < 2 ^ 53
      → r.float_lt (r.float_of_int (pos n)) (r.float_of_int (pos m)) ≡ ltb n m
  pub mul_exact :
      (n m : ℕ)
      → n * m < 2 ^ 53
      → r.float_mul (r.float_of_int (pos n)) (r.float_of_int (pos m)) ≡ r.float_of_int (pos (n * m))

module _ (r : Runtime) (exact : HasExactIntegers r) (user : User) (spec : ConfigSpec) where
  pub bucket-lt : (rule : ConfigRule) → bucket r user rule spec < 10000
  unfolding bucket
  bucket-lt rule = omega arith

  abbrev units : ConfigRule → Float64
  units rule = r.float_of_int (pos (bucket r user rule spec))

  -- A rule at a whole percentage passes exactly the units whose bucket, of ten thousand, is below
  -- a hundred times the percentage.
  pub eval_pass_percent_whole :
      (rule : ConfigRule) (p : ℕ)
      → rule.pass_percentage ≡ r.float_of_int (pos p)
      → p ≤ 100
      → eval_pass_percent r user rule spec ≡ ltb (bucket r user rule spec) (p * 100)
  unfolding eval_pass_percent
  eval_pass_percent_whole rule p whole h =
      ap (λ x. r.float_lt (units rule) (r.float_mul x (r.float_of_int (pos 100)))) whole
      ∙ ap (λ x. r.float_lt (units rule) x) (exact.mul_exact p 100 (omega arith))
      ∙ exact.lt_exact (bucket r user rule spec) (p * 100) (omega (arith, bucket-lt rule))
          (omega arith)

  -- At 0 percent a rule passes nobody, and at 100 percent it passes everybody.
  pub eval_pass_percent_ends :
      (rule : ConfigRule)
      → (rule.pass_percentage ≡ r.float_of_int (pos 0) → eval_pass_percent r user rule spec ≡ false)
        × (rule.pass_percentage ≡ r.float_of_int (pos 100)
            → eval_pass_percent r user rule spec ≡ true)
  eval_pass_percent_ends rule = (
    λ none. ground (arith, eval_pass_percent_whole rule 0 none (omega arith)),
    λ all. ground (arith, eval_pass_percent_whole rule 100 all (omega arith), bucket-lt rule),
  )
