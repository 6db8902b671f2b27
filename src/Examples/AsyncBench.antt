-- ===== src/Examples/AsyncBench.antt =====
-- examples/async_poll_bench.rs and examples/async_poll_bench_async_std.rs: one poll after another, on
-- either front end.
mod Defs
pub mod Loop
mod Whole
pub mod Tokio
pub mod AsyncStd
mod Tests
pub use Defs.*
