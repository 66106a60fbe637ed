-- ===== src/Examples.antt =====
-- Concrete tables and runs of the operations on them.
mod Data
mod FiniteState
mod ContinuousState
mod Others
mod Process
mod Registered
mod Wired
mod Supervising
mod Configured
mod Planning
mod Kit
mod Leasing
