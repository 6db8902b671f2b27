-- ===== src/Examples/AsyncBench/Tests.antt =====
-- Tests of the async poll benchmarks, and the instances of their theorems, on the simulated ring that
-- answers each submission at once.
use liburing_rs.Base.{ℕ, ◌+◌, ◌-◌, ◌≡◌, refl}
use liburing_rs.Base.Int.{ℤ, pos}
use liburing_rs.Error.{check_ret}
use liburing_rs.Ops.Traits.{set_user_data}
use liburing_rs.Queue.Cqe as CqeOps
use liburing_rs.Queue.Submission.{get_sqe_or_err, get_sqe}
use liburing_rs.Queue.Completion.{wait_cqe}
use liburing_rs.Uring
use liburing_rs.AsyncIo.AsyncStd as Std
use liburing_rs.AsyncIo.Tokio as Tok
use liburing_rs.Examples.PollBench.{Pipe}
use liburing_rs.Examples.AsyncBench.Defs.{prepare, Bench, ended, poll_once}
use liburing_rs.Examples.AsyncBench.AsyncStd as OnStd
use liburing_rs.Examples.AsyncBench.Tokio as OnTokio
use liburing_rs.Sim.{SimSqe, SimKernel, empty_ring}
use liburing_rs.Sim.Eager.{eager}

-- A pipe with a number of bytes in it.
abbrev tube : Pipe
tube = record { State = ℕ; write_one = λ n. (pos 1, n + 1); read_one = λ n. (pos 1, n - 1) }

abbrev prep_poll : SimSqe → ℤ → ℕ → SimSqe
prep_poll s fd mask = record s { fd = fd; len = mask }

-- The code of a poll that finds the pipe readable.
abbrev readable : SimSqe → ℤ
readable s = pos 1

abbrev wait_std :
    Std.AsyncIoUring (eager readable)
    → ℕ
    → Bench
        (Std.AsyncIoUring (eager readable))
        (OnStd.await_poll (eager readable) prep_poll)
        tube
        (pos 3)
        1
wait_std r n = record { ring = r; pipe = 0; nr_reqs = n }

abbrev idle_std : Std.AsyncIoUring (eager readable)
idle_std = record { ring = record { ring = empty_ring } }

std_polls :
    poll_once
      (Std.AsyncIoUring (eager readable))
      (OnStd.await_poll (eager readable) prep_poll)
      tube
      (pos 3)
      1
      (wait_std idle_std 4)
    ≡ ended (wait_std idle_std 5)
unfolding poll_once Std.submit_op prepare get_sqe_or_err get_sqe set_user_data Uring.submit
    check_ret wait_cqe CqeOps.result CqeOps.drop
std_polls = refl

-- The system has room for one ring.
abbrev kernel : SimKernel
kernel = record { live = 0; room = 1 }
