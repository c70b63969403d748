-- ===== src/Evaluator.antt =====
-- evaluator.go, in the order of a call: what is read from the user, the comparisons, the
-- condition's operators, the recursive evaluation, and the overrides.
pub mod UserFields
pub mod Compare
pub mod Version
pub mod Clock
pub mod Result
pub mod Operator
pub mod Condition
pub mod Eval
pub mod Api
