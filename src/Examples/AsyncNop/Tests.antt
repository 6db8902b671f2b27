-- ===== src/Examples/AsyncNop/Tests.antt =====
-- Tests of the async no-op examples, on the simulated ring that answers each submission at once.
use liburing_rs.Base.{◌≡◌, refl, true, some}
use liburing_rs.Base.Int.{pos}
use liburing_rs.Base.Outcome.{ok, err}
use liburing_rs.Error.{setup, from_raw_os_error, check_ret, from_ret_code}
use liburing_rs.Ops.Traits.{set_user_data}
use liburing_rs.Ops.Nop
use liburing_rs.Queue.Cqe as CqeOps
use liburing_rs.Queue.Submission.{get_sqe_or_err, get_sqe}
use liburing_rs.Queue.Completion.{wait_cqe}
use liburing_rs.Uring
use liburing_rs.AsyncIo.AsyncStd as Std
use liburing_rs.Examples.AsyncNop.Defs.{main_async_std}
use liburing_rs.Sim.{SimKernel}
use liburing_rs.Sim.Eager.{eager}

abbrev kernel : SimKernel
kernel = record { live = 0; room = 1 }

std_prints :
    main_async_std (eager (λ s. pos 0)) kernel
    ≡ some (ok (record { result = pos 0; success = true }))
unfolding main_async_std Std.new Std.submit_op Nop.prepare Uring.new Uring.with_flags get_sqe_or_err
    get_sqe set_user_data Uring.submit check_ret wait_cqe CqeOps.result CqeOps.drop
std_prints = refl

std_refused :
    main_async_std (eager (λ s. pos 0)) (record kernel { room = 0 })
    ≡ some (err (setup (from_raw_os_error (pos 12))))
unfolding main_async_std Std.new Uring.new Uring.with_flags check_ret from_ret_code
std_refused = refl
