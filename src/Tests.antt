-- ===== src/Tests.antt =====
-- Concrete runs of the model, and the theorems at concrete data.
pub mod Exceptions
pub mod Requests
pub mod Data
pub mod Evaluation
pub mod Operators
pub mod Syncs
pub mod Clients
pub mod Downloads
pub mod Sessions
pub mod Rounds
