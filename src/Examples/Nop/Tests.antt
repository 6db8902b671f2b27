-- ===== src/Examples/Nop/Tests.antt =====
-- Tests of examples/nop.rs, and the instance of its theorem, on the simulated ring that answers each
-- submission at once.
use liburing_rs.Base.{subst, ◌≡◌, refl, true}
use liburing_rs.Base.Int.{pos}
use liburing_rs.Base.Outcome.{ok}
use liburing_rs.Sys.{Sys}
use liburing_rs.Sys.Documented.{Documented, Counted}
use liburing_rs.Sys.Progress.{IsQuiet}
use liburing_rs.Error.{check_ret}
use liburing_rs.Ops.Nop
use liburing_rs.Ops.Traits.{set_user_data}
use liburing_rs.Queue.Cqe as CqeOps
use liburing_rs.Queue.Cqe.{Cqe}
use liburing_rs.Queue.Submission.{get_sqe_or_err, get_sqe}
use liburing_rs.Queue.Completion.{wait_cqe}
use liburing_rs.Uring
use liburing_rs.Uring.{IoUring}
use liburing_rs.Examples.Nop.Defs.{run_nop, main}
use liburing_rs.Examples.Nop.Reports.{Blames, Reports, main-Reports}
use liburing_rs.Sim.{SimKernel, sim_counted}
use liburing_rs.Sim.Faultless.{ok-inj, eager_faults, eager_silent}
use liburing_rs.Sim.Eager.{eager, eager_documented}

abbrev loop_back : Sys
loop_back = eager (λ s. pos 0)

abbrev loop_back_documented : Documented loop_back
loop_back_documented = eager_documented (λ s. pos 0)

abbrev loop_back_counted : Counted loop_back
loop_back_counted = record {
  live = sim_counted.live;
  init = sim_counted.init;
  init_params = sim_counted.init_params;
  exit = sim_counted.exit;
}

-- The system has room for one ring more.
abbrev kernel : SimKernel
kernel = record { live = 3; room = 1 }

-- There is no room for the ring.
abbrev crowded : SimKernel
crowded = record { live = 3; room = 0 }

reports : main loop_back kernel ≡ (
  ok (record { user_data = 4660; result = pos 0; success = true }),
  record { live = 3; room = 1 },
)
unfolding main run_nop Uring.new Uring.with_flags Uring.drop Uring.submit get_sqe_or_err get_sqe
    set_user_data Nop.prepare check_ret wait_cqe CqeOps.user_data CqeOps.result CqeOps.is_success
    CqeOps.drop
reports = refl

crowded_stays : (main loop_back crowded).1 ≡ crowded
unfolding main Uring.new Uring.with_flags check_ret
crowded_stays = refl

-- Nothing fails on it.
loop_back-Blames : Blames loop_back loop_back_documented ⊥ kernel
unfolding Uring.new Uring.with_flags check_ret
loop_back-Blames = record {
  unmade = λ e h. cc h;
  faults = eager_faults (λ s. pos 0);
  silent = eager_silent (λ s. pos 0);
}

fresh :
    (u : IoUring loop_back)
    → (Uring.new loop_back 8 kernel).0 ≡ ok u
    → IsQuiet loop_back loop_back_documented u.ring
unfolding Uring.new Uring.with_flags check_ret
fresh u made =
    subst (λ v. IsQuiet loop_back loop_back_documented v.ring) (ok-inj made)
      (record { queue = refl; done = refl; flight = refl })

main-Reports_example :
    ((main loop_back kernel).1.live ≡ 3)
    × Reports loop_back loop_back_documented ⊥ (main loop_back kernel).0
main-Reports_example =
    main-Reports loop_back loop_back_documented ⊥ kernel loop_back-Blames loop_back_counted fresh
