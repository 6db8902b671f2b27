-- ===== src/Examples/AsyncNop.antt =====
-- examples/async_nop_tokio.rs and examples/async_nop_async_std.rs: one no-op, awaited.
mod Defs
mod Awaits
mod Tests
pub use Defs.*
