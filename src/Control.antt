-- ===== src/Control.antt =====
-- The control plane: src/distributed_runtime/control.
pub mod Admin
pub mod Client
pub mod Reconciler
pub mod Holding
pub mod Balance
pub mod Planner
pub mod Intents
pub mod Storing
pub mod Dispatcher
pub mod Due
pub mod Wakeups
pub mod Releasing
pub mod Draining
pub mod Planning
pub mod Preparing
pub mod Replanning
