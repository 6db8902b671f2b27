-- ===== src/AsyncIo/AsyncStd/Defs.antt =====
-- src/async_io/async_std_impl.rs: the state and `submit_op`. A call holds the mutex throughout, so it
-- is a function from the ring to the ring; the thread that runs it is not modelled.
use liburing_rs.Base.{ℕ}
use liburing_rs.Base.Int.{ℤ}
use liburing_rs.Base.Outcome.{ok, Step, ◌>>=◌, ◌>>◌, map_ok}
use liburing_rs.Sys.{Sys}
use liburing_rs.Error.{Error, Result}
use liburing_rs.Ops.Traits.{PrepareOp, set_user_data}
use liburing_rs.Queue.Cqe as CqeOps
use liburing_rs.Queue.Submission.{get_sqe_or_err}
use liburing_rs.Queue.Completion.{wait_cqe}
use liburing_rs.Uring
use liburing_rs.Uring.{IoUring}
use liburing_rs.Uring.Exchange.{on_ring, on_sqe}

module _ (sys : Sys) where
  open sys use {Kernel}

  -- `AsyncIoUring`
  pub record AsyncIoUring : Type 0 where
    pub ring : IoUring sys

  unfoldable pub new : ℕ → Kernel → Result AsyncIoUring × Kernel
  new entries k =
      let (ring, k') = Uring.new sys entries k in (map_ok (λ u. record { ring = u }) ring, k')

  -- The guard of the mutex leads to the ring.
  abbrev pub with_lock : {A : Type 0} → Step (IoUring sys) Error A → Step AsyncIoUring Error A
  with_lock body s = let (a, u) = body s.ring in (a, record { ring = u })

  -- Every operation carries the user data 1. The guard of the completion is dropped at the end, after
  -- its result is read.
  unfoldable pub submit_op : {Op : Type 0} ⦃p : PrepareOp sys Op⦄ → Op → Step AsyncIoUring Error ℤ
  submit_op ⦃p⦄ op = with_lock do
    sqe ← on_ring sys (get_sqe_or_err sys)
    on_sqe sys sqe (p.prepare op)
    on_sqe sys sqe (λ s. set_user_data sys s 1)
    Uring.submit sys
    cqe ← on_ring sys (wait_cqe sys)
    on_ring sys (λ r. (ok (CqeOps.result sys r cqe), CqeOps.drop sys r cqe))
