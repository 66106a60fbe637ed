-- ===== src/Registry.antt =====
-- src/distributed_runtime/registry.py: the registry of workloads and sinks. Product code is opaque:
-- planners, handlers, continuous workloads and sinks are of the types `P`, `H`, `W` and `S`, and what
-- `getattr` reads of a planner or a workload is its `Declaration`.
pub mod Version
pub mod Workloads
pub mod Sinks
pub mod Lookup
pub mod Modes
