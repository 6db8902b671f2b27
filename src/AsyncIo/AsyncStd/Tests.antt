-- ===== src/AsyncIo/AsyncStd/Tests.antt =====
-- Tests of src/async_io/async_std_impl.rs, and the instances of its theorems, on the simulated ring.
use liburing_rs.Base.{◌≡◌, refl, [], ◌∷◌}
use liburing_rs.Base.Int.{pos}
use liburing_rs.Base.Outcome.{ok}
use liburing_rs.Sys.{IoUringCqe}
use liburing_rs.Sys.Progress.{IsQuiet}
use liburing_rs.Error.{check_ret}
use liburing_rs.Ops.Read
use liburing_rs.Ops.Read.{Read}
use liburing_rs.Ops.Traits.{PrepareOp, set_user_data}
use liburing_rs.Queue.Cqe
use liburing_rs.Queue.Submission.{get_sqe_or_err, get_sqe}
use liburing_rs.Queue.Completion.{wait_cqe}
use liburing_rs.Uring
use liburing_rs.AsyncIo.AsyncStd.Defs.{AsyncIoUring, submit_op}
use liburing_rs.AsyncIo.AsyncStd.Laws.{Ends, submit_op-Ends}
use liburing_rs.AsyncIo.AsyncStd.Quiet.{Reaps, submit_op-IsQuiet, submit_op_stale}
use liburing_rs.Sim.{sim, sim_documented, empty_ring}

instance abbrev sim_read : PrepareOp sim Read
sim_read = Read.read_op sim

abbrev quiet : AsyncIoUring sim
quiet = record { ring = record { ring = empty_ring } }

-- A completion that an earlier call has left.
abbrev left : IoUringCqe
left = record { user_data = 1; res = pos 99; flags = 0 }

abbrev littered : AsyncIoUring sim
littered = record { ring = record { ring = record empty_ring { done = left ∷ [] } } }

abbrev read_four : Read
read_four = record { fd = pos 3; buf = 64; len = 4; offset = 0 }

read_on_quiet : (submit_op sim read_four quiet).0 ≡ ok (pos 4)
unfolding submit_op get_sqe_or_err get_sqe set_user_data Read.prepare Uring.submit check_ret
    wait_cqe Cqe.result Cqe.drop
read_on_quiet = refl

read_on_littered : (submit_op sim read_four littered).0 ≡ ok (pos 99)
unfolding submit_op get_sqe_or_err get_sqe set_user_data Read.prepare Uring.submit check_ret
    wait_cqe Cqe.result Cqe.drop
read_on_littered = refl

submit_op-Ends_example :
    Ends sim sim_documented read_four littered.ring.ring
      (submit_op sim read_four littered).1.ring.ring
      (submit_op sim read_four littered).0
submit_op-Ends_example = submit_op-Ends sim sim_documented read_four littered

submit_op-IsQuiet_example :
    IsQuiet sim sim_documented (submit_op sim read_four quiet).1.ring.ring
    × Reaps sim sim_documented read_four quiet.ring.ring
        (submit_op sim read_four quiet).1.ring.ring
        (pos 4)
submit_op-IsQuiet_example =
    submit_op-IsQuiet sim sim_documented read_four quiet
      (record { queue = refl; done = refl; flight = refl }) read_on_quiet

submit_op_stale_example : pos 99 ≡ left.res
submit_op_stale_example =
    submit_op_stale sim sim_documented read_four littered left [] refl read_on_littered
