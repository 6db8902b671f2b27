-- ===== src/Examples/LinkCp.antt =====
-- examples/link-cp.rs: a file copy whose reads are linked to their writes.
mod Defs
pub mod Counting
pub mod Ledger
pub mod Pairs
pub mod Rounds
pub mod Total
pub mod Broken
mod Tests
pub use Defs.*
