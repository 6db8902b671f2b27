-- ===== src/Build.antt =====
-- build.rs: the build script, which links the system's liburing or builds one.
mod Defs
pub mod Laws
pub mod Links
mod Tests
pub use Defs.*
