-- ===== src/Queue.antt =====
-- src/queue.rs: the submission queue, the completion queue and the guard of one completion.
pub mod Submission
pub mod Completion
pub mod Cqe
pub mod Space
pub mod Fill
pub mod Delivery
mod Tests
