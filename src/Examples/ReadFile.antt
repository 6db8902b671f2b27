-- ===== src/Examples/ReadFile.antt =====
-- examples/read_file.rs: one read, whose completion is peeked.
mod Defs
pub mod Reads
mod Tests
pub use Defs.*
