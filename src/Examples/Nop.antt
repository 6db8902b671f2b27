-- ===== src/Examples/Nop.antt =====
-- examples/nop.rs: a program that makes a ring, runs one no-op on it, and reports its completion.
mod Defs
pub mod Reports
mod Tests
pub use Defs.*
