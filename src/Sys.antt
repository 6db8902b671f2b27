-- ===== src/Sys.antt =====
-- The C library that src/sys.rs binds: the calls and the struct fields that the crate uses. None of
-- it is code of the repository, so it is a parameter of every definition that calls it. A call on a
-- `*mut io_uring` takes what the pointer leads to, and returns it as the call leaves it; an
-- out-parameter is passed in and handed back. Addresses are numbers, and the null pointer is 0.
mod Defs
pub mod Documented
pub mod Progress
pub use Defs.*
