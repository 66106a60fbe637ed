-- ===== src/State.antt =====
-- src/distributed_runtime/state: the tables of the `runtime_state` schema and the repositories.
pub mod Db
pub mod Tx
pub mod Steps
pub mod Finite
pub mod Outbox
pub mod Continuous
pub mod Workers
