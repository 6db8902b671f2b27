-- ===== src/AsyncIo/Tokio/Executor.antt =====
-- src/async_io/tokio_impl.rs under an executor: `ring.submit_op(op).await`. The runtime is not code of
-- the repository: when it polls the task again, and what has happened until then, is a parameter.
use liburing_rs.Base.{ℕ, zero, suc, Option, none, some}
use liburing_rs.Base.Int.{ℤ}
use liburing_rs.Base.Outcome.{StdResult}
use liburing_rs.Sys.{Sys}
use liburing_rs.Error.{Error}
use liburing_rs.Ops.Traits.{PrepareOp}
use liburing_rs.AsyncIo.Runtime.{Runtime}
use liburing_rs.AsyncIo.Tokio.Defs.{
  Poll, ready, pending, panicked, SubmitFuture, Inner, Polled, poll, submit_op,
}

module _ (sys : Sys) (rt : Runtime) where
  -- The value of the await and the shared state; `none` if the task panics, if it is never polled
  -- again, or if the fuel runs out.
  abbrev pub Answer : Type 0
  Answer = Option (StdResult ℤ Error × Inner sys rt)

  abbrev pub resumed : (Inner sys rt → Answer) → Option (Inner sys rt) → Answer
  resumed again none = none
  resumed again (some s) = again s

  module _ (resume : Inner sys rt → Option (Inner sys rt)) {Op : Type 0} where
    abbrev pub polled_to :
        (SubmitFuture Op → Inner sys rt → Answer) → Poll → Polled sys rt Op → Answer
    polled_to again (ready result) p = some (result, p.inner)
    polled_to again pending p = resumed (again p.future) (resume p.inner)
    polled_to again panicked p = none

    abbrev pub drive_on :
        (SubmitFuture Op → Inner sys rt → Answer) → Option (Polled sys rt Op) → Answer
    drive_on again none = none
    drive_on again (some p) = polled_to again p.out p

    -- The polls of a future, at most as many as the first number says; the second is the fuel of
    -- each.
    unfoldable pub drive :
        ⦃o : PrepareOp sys Op⦄ → ℕ → ℕ → rt.Waker → SubmitFuture Op → Inner sys rt → Answer
    drive zero fuel w f s = none
    drive (suc polls) fuel w f s = drive_on (drive polls fuel w) (poll sys rt fuel w s f)

    -- `submit_op(op).await`
    unfoldable pub await_op : ⦃o : PrepareOp sys Op⦄ → ℕ → ℕ → rt.Waker → Op → Inner sys rt → Answer
    await_op polls fuel w op s = drive polls fuel w (submit_op sys rt op) s
