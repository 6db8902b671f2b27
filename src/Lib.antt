-- ===== src/Lib.antt =====
-- liburing-rs: the safe layer over liburing, and its two async front ends.
--
-- The crate wraps the C library liburing. A ring has a submission queue, which the program fills
-- and the kernel empties, and a completion queue, which the kernel fills and the program empties.
-- `IoUring` (src/uring.rs) owns a ring and hands out views of its queues (src/queue.rs); the
-- operations (src/ops.rs) prepare an entry of the submission queue; a completion is read behind a
-- guard, `Cqe`, whose drop marks it as seen. On top of that stand two implementations of
-- `AsyncIoUring`: for tokio (src/async_io/tokio_impl.rs), a future per operation, all of them
-- sharing one ring behind a mutex, and for async-std (src/async_io/async_std_impl.rs), a blocking
-- call per operation.
--
-- The files:
--   Base        lists, options, `i32` and `u32` arithmetic, results with a state, maps
--   Sys         what the crate takes from C (src/sys.rs and the generated bindings): Sys/Defs is
--               the record of those operations, a parameter of everything else; Sys/Documented
--               states as hypotheses what the manual pages of liburing say of them
--   Error       src/error.rs
--   Flags       the module `flags` of src/lib.rs
--   Ops         src/ops.rs, a file for each operation; Ops/Slices is about `from_slice`
--   Queue       src/queue.rs: Queue/Submission is `SubmissionQueue`, Queue/Completion is
--               `CompletionQueue`, Queue/Cqe is the guard
--   Uring       src/uring.rs; Uring/Session is a program that calls the crate in any order,
--               Uring/Exchange one that has a single request at a time
--   AsyncIo     AsyncIo/Tokio is src/async_io/tokio_impl.rs, AsyncIo/AsyncStd is
--               src/async_io/async_std_impl.rs, AsyncIo/Runtime what the former uses of tokio
--   Examples    programs on top of the crate: Examples/Copy is `copy_file` of
--               examples/io_uring-cp.rs, Examples/LinkCp is `copy_file_linked` of
--               examples/link-cp.rs, Examples/Cat is `cat_file` of examples/cat.rs,
--               Examples/PollBench is `main` of examples/poll-bench.rs, Examples/Nop is
--               `main` of examples/nop.rs, Examples/ReadFile that of examples/read_file.rs,
--               Examples/AsyncNop is `main` of examples/async_nop_tokio.rs and
--               examples/async_nop_async_std.rs, Examples/AsyncBench that of
--               examples/async_poll_bench.rs and examples/async_poll_bench_async_std.rs
--   Build       build.rs, as the events that it causes
--   Sim         a small ring and a small event loop that meet every hypothesis; the tests and the
--               instances of the theorems run on them
--
-- State. A `&mut` receiver is the state that goes in and the state that comes out. A pointer to an
-- entry or to a completion is an address, and the ring holds what it leads to. `Cqe` is that
-- address; its `drop`, which Rust calls at the end of the guard's life, is called where that end is.
-- The mutex of a front end is held throughout a `poll` or a `submit_op`, so each of these is a
-- function on the shared state, and an interleaving of tasks is a sequence of them. An await of a
-- future polls it until it is ready (AsyncIo/Tokio/Executor); when the runtime polls again, and what
-- the kernel has done until then, is a parameter. The wakers that
-- a poll wakes are part of its result. A `?` or an early return is an error value.
--
-- Numbers. `i32` is a sign and a native number, `-ret` of the least value is that value, as in a
-- release build; casts to `u32` and `usize` and the counter of the user data wrap as written.
--
-- Fuel. The loop of `poll` runs on fuel. Each round takes out a completion, so fuel above the number
-- of completions posted and requests in flight is enough, and the theorems say so. In `copy_file`
-- the loop that queues reads has fuel for the 64 operations that may be in flight; the outer loop
-- and its drain have any fuel, and the theorems hold for each, since the program need not end. The
-- loops of `cat_file` and `copy_file_linked` end, and their theorems say with how much fuel; that of
-- `copy_file_linked` polls the queue, so its fuel counts the rounds that find nothing. The clock of a
-- benchmark is the list of its readings: the program is unfinished where they run out, and its theorem
-- asks for a reading that ends the loop.
--
-- Hypotheses. The kernel may post completions at any call on the completion side and at a
-- submission. Each request posts one completion: no multishot request, and none that skips its
-- completion. Submission-queue polling (`SetupFlags::SQPOLL`) is off.
--
-- Not modelled: the options of bindgen, the tests, `main` of the examples that copy and print
-- files, the set operations of the crate bitflags, the text of an `io::Error`, `as_raw_mut`, the
-- `Send` and `Sync` markers, and the threads of async-std's pool.
pub mod Base
pub mod Sys
pub mod Error
pub mod Flags
pub mod Ops
pub mod Queue
pub mod Uring
pub mod AsyncIo
pub mod Examples
pub mod Build
pub mod Sim
