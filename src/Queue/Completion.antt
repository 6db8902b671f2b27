-- ===== src/Queue/Completion.antt =====
-- src/queue.rs: `CompletionQueue`. It is a pointer to the ring, so each method takes and returns the
-- ring that the pointer leads to.
use liburing_rs.Base.{ℕ, ◌||◌, List, length, Option, none, some, ◌==◌, if◌then◌else◌}
use liburing_rs.Base.Int.{is_neg, as_u32}
use liburing_rs.Base.Outcome.{ok, err}
use liburing_rs.Sys.{Sys, null}
use liburing_rs.Error.{Result, completion_queue_empty, from, from_ret_code}
use liburing_rs.Queue.Cqe.{Cqe}

module _ (sys : Sys) where
  open sys use {Ring}

  unfoldable pub wait_cqe : Ring → Result Cqe × Ring
  wait_cqe r =
      let (ret, cqe, r') = sys.io_uring_wait_cqe_timeout r null in
      (
        if is_neg ret
            then err (from (from_ret_code ret))
            else if cqe == null
            then err completion_queue_empty
            else ok (record { cqe = cqe }),
        r',
      )

  unfoldable pub peek_cqe : Ring → Option Cqe × Ring
  peek_cqe r =
      let (ret, cqe, r') = sys.io_uring_peek_cqe r null in
      (if is_neg ret || cqe == null then none else some (record { cqe = cqe }), r')

  -- The slots of `cqes` are filled from the front.
  unfoldable pub peek_batch : Ring → List ℕ → ℕ × List ℕ × Ring
  peek_batch r cqes = let count = as_u32 (length cqes) in sys.io_uring_peek_batch_cqe r cqes count
