-- ===== src/Examples/Copy.antt =====
-- examples/io_uring-cp.rs: a file copy with up to 64 blocks in flight.
mod Defs
mod Loop
pub mod Accounts
pub mod Blocks
pub mod Outcomes
pub mod Completions
pub mod Ending
pub mod Short
mod Tests
pub use Defs.*
pub use Loop.*
