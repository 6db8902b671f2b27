-- ===== src/AsyncIo.antt =====
-- src/async_io.rs: the async front ends, one for each runtime.
pub mod Runtime
pub mod Tokio
pub mod AsyncStd
