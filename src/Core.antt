-- ===== src/Core.antt =====
-- src/distributed_runtime/core: the enumerations, JSON values and errors that every part shares.
pub mod Enums
pub mod Json
pub mod Errors
pub mod Name
pub mod Text
pub mod Identifier
pub mod Envelope
pub mod Artifact
pub mod Wire
pub mod Failure
pub mod Lifecycle
pub mod Shutdown
pub mod Config
