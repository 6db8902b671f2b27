-- ===== src/Examples/Cat.antt =====
-- examples/cat.rs: a file printed block by block, with one read at a time.
mod Defs
pub mod Reads
pub mod Total
mod Tests
pub use Defs.*
