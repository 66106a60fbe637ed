-- ===== src/State/Continuous.antt =====
-- Continuous state: src/distributed_runtime/state/continuous.py.
pub mod Deployments
pub mod Sync
pub mod Lease
pub mod Emit
pub mod Exclusion
pub mod Fencing
pub mod Emission
pub mod Retire
pub mod Moves
pub mod Effects
pub mod History
