-- ===== src/Examples.antt =====
-- examples: programs on top of the crate.
mod Words
mod Outcome
pub mod Nop
pub mod ReadFile
mod AsyncNop
pub mod Copy
pub mod Cat
pub mod LinkCp
pub mod PollBench
pub mod AsyncBench
