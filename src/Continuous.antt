-- ===== src/Continuous.antt =====
-- Continuous workloads: src/distributed_runtime/continuous.
pub mod Contracts
pub mod Discovery
