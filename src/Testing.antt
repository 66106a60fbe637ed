-- ===== src/Testing.antt =====
-- The in-memory kits for product tests: src/distributed_runtime/testing.
pub mod Delivery
pub mod FiniteKit
pub mod Outcomes
pub mod Budget
pub mod Spending
pub mod Pending
pub mod Requests
pub mod Redelivery
pub mod Settling
pub mod Redelivered
pub mod Leases
pub mod Fenced
