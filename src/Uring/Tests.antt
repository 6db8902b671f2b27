-- ===== src/Uring/Tests.antt =====
-- Tests of src/uring.rs, and the instances of its theorems, on the simulated ring.
use liburing_rs.Base.{◌≡◌, refl, List, [], ◌∷◌}
use liburing_rs.Base.Int.{pos}
use liburing_rs.Base.Outcome.{ok, err}
use liburing_rs.Error.{setup, from_raw_os_error, check_ret, from_ret_code}
use liburing_rs.Ops.Traits.{set_user_data}
use liburing_rs.Queue.Cqe
use liburing_rs.Queue.Submission as Submission
use liburing_rs.Queue.Completion.{peek_cqe, wait_cqe}
use liburing_rs.Uring.{IoUring, new, with_flags, with_params, submit, submit_and_wait}
use liburing_rs.Uring.Laws.{Did, submissions-Submit, Makes, setup-Makes}
use liburing_rs.Uring.Session.{
  Session, Call, request, submits, reap, wait, step, run, IsBalanced, run-IsBalanced,
}
use liburing_rs.Sim.{sim, sim_documented, sim_counted, SimKernel, two, blank, empty_ring, transfer}

-- Two entries are queued.
abbrev uring : IoUring sim
uring = record { ring = record empty_ring { slots = two blank (record blank { data64 = 5 }) } }

-- The system has room for one ring more.
abbrev kernel : SimKernel
kernel = record { live = 3; room = 1 }

submit_two : (submit sim uring).0 ≡ ok 2
unfolding submit check_ret
submit_two = refl

-- ENOMEM is 12.
new_fails : (new sim 8 (record kernel { room = 0 })).0 ≡ err (setup (from_raw_os_error (pos 12)))
unfolding new with_flags check_ret from_ret_code
new_fails = refl

-- A program that fills two entries, submits them, and takes the completions.
abbrev calls : List (Call sim)
calls =
    request (λ s. transfer s (pos 3) 64 8 0) 1
    ∷ request (λ s. transfer s (pos 3) 72 4 8) 2
    ∷ submits
    ∷ wait
    ∷ reap
    ∷ reap
    ∷ []

abbrev begun : Session sim
begun = record { ring = empty_ring; accepted = []; delivered = [] }

run_delivers :
    (run sim begun calls).delivered
    ≡ record { user_data = 2; res = pos 4; flags = 0 }
      ∷ record { user_data = 1; res = pos 8; flags = 0 }
      ∷ []
unfolding run step Submission.get_sqe_or_err Submission.get_sqe submit check_ret peek_cqe wait_cqe
    set_user_data Cqe.user_data Cqe.result Cqe.flags Cqe.drop
run_delivers = refl

submissions-Submit_example :
    let (own, own') = submit sim uring in
    let (own_wait, own_wait') = submit_and_wait sim uring 1 in
    let (queued, queued') = Submission.submit sim uring.ring in
    let (queued_wait, queued_wait') = Submission.submit_and_wait sim uring.ring 1 in
    Did sim sim_documented sim.io_uring_submit uring.ring own own'.ring
    × Did sim sim_documented
        (λ r. sim.io_uring_submit_and_wait r 1)
        uring.ring
        own_wait
        own_wait'.ring
    × Did sim sim_documented sim.io_uring_submit uring.ring queued queued'
    × Did sim sim_documented
        (λ r. sim.io_uring_submit_and_wait r 1)
        uring.ring
        queued_wait
        queued_wait'
submissions-Submit_example = submissions-Submit sim sim_documented uring 1

setup-Makes_example :
    Makes sim sim_counted kernel (with_flags sim 8 0 kernel).1 (with_flags sim 8 0 kernel).0
    × Makes sim sim_counted kernel (new sim 8 kernel).1 (new sim 8 kernel).0
    × Makes sim sim_counted kernel (with_params sim 8 0 kernel).2 (with_params sim 8 0 kernel).0
setup-Makes_example = setup-Makes sim sim_counted 8 0 0 kernel

run-IsBalanced_example : IsBalanced sim sim_documented (run sim begun calls)
run-IsBalanced_example = run-IsBalanced sim sim_documented calls begun (λ k. refl)
