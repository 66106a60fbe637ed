-- ===== src/Finite.antt =====
-- src/distributed_runtime/finite: the contracts of finite workloads.
pub mod Unit
pub mod Validate
pub mod Drift
pub mod Context
