-- ===== src/State/Finite.antt =====
-- src/distributed_runtime/state/finite.py: `FiniteStateStore`, operation by operation, and what the
-- operations guarantee together.
pub mod Runs
pub mod Plan
pub mod Claim
pub mod Attempt
pub mod Finalize
pub mod Exclusion
pub mod Encoding
pub mod Fencing
pub mod Change
pub mod Effects
pub mod Batch
pub mod History
pub mod Held
pub mod Ending
