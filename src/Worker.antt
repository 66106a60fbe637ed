-- ===== src/Worker.antt =====
-- Workers: src/distributed_runtime/worker.
pub mod Retry
pub mod Backoff
pub mod Settle
pub mod Outcome
pub mod Execute
pub mod Handle
pub mod Settled
pub mod Delivery
pub mod Unregistered
pub mod Supervisor
pub mod Supervised
pub mod Renewing
pub mod Reading
pub mod Ticking
pub mod Emitting
