-- ===== src/AsyncIo/AsyncStd.antt =====
-- src/async_io/async_std_impl.rs: one operation at a time, on a blocking thread that holds the mutex
-- from the submission to the completion.
mod Defs
pub mod Laws
pub mod Quiet
mod Tests
unfoldable pub use Defs.*
