-- ===== src/Ops.antt =====
-- src/ops.rs: the operation builders and their preparation of a submission queue entry.
pub mod Traits
pub mod Read
pub mod Write
pub mod Fsync
pub mod Nop
pub mod Accept
pub mod Connect
pub mod Close
pub mod Slices
mod Tests
