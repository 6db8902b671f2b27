-- ===== src/AsyncIo/Tokio.antt =====
-- src/async_io/tokio_impl.rs: futures that share one ring behind a mutex. A poll holds the mutex from
-- its first line to its last, so it is a function from the shared state to the shared state. The
-- wakers that it wakes are listed.
mod Defs
pub mod Check
pub mod Poll
pub mod Lost
pub mod Wakeup
pub mod Start
pub mod Counter
pub mod Returns
pub mod Apart
pub mod Futures
pub mod Held
pub mod Requests
pub mod Gone
pub mod Alone
pub mod Executor
pub mod Awaited
mod Tests
mod SystemTests
mod AwaitTests
unfoldable pub use Defs.*
