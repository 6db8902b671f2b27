-- ===== src/Examples/PollBench.antt =====
-- examples/poll-bench.rs: rounds of 32 polls on a pipe.
mod Defs
mod Program
pub mod Await
pub mod Rounds
pub mod Whole
mod Tests
pub use Defs.*
pub use Program.{runtime_ms, requests_per_sec}
