-- ===== src/Sim.antt =====
-- A small ring that meets the documented behaviour: two submission slots, a kernel that answers a
-- no-op or a transfer at the submission and keeps a poll in flight, and a switch that makes it
-- refuse a submission; and an event loop with one place for a waker. The tests and the instances of the theorems run on it.
mod Defs
mod Laws
mod Loop
pub mod Eager
pub mod Faultless
pub mod Wakeful
mod Entries
pub mod Wide
pub use Defs.*
pub use Loop.*
pub use Laws.{sim_documented, sim_with_documented, sim_fields, sim_counted, length-queued}
