-- ===== src/Prelude/Table.antt =====
-- Tables: the statements on them, and what the statements do.
mod Statements
mod Rows
mod Counts
mod Members
mod Order
unfoldable pub use Statements.*
pub use Rows.*
pub use Counts.*
pub use Members.*
pub use Order.*
