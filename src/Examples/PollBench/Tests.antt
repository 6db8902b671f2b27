-- ===== src/Examples/PollBench/Tests.antt =====
-- Tests of examples/poll-bench.rs, and the instance of its theorem, on the simulated ring of 64 entries.
use liburing_rs.Base.{some, none, ℕ, ◌+◌, ◌≡◌, refl, ◌^◌, List, [], ◌∷◌}
use liburing_rs.Base.Int.{ℤ, pos, negsuc}
use liburing_rs.Base.Outcome.{ok, err}
use liburing_rs.Error.{Error, setup, from_raw_os_error, from_ret_code, check_ret}
use liburing_rs.Flags.{bits, SetupConstants, single_issuer, setup_bits}
use liburing_rs.Ops.Traits.{set_user_data, set_flags}
use liburing_rs.Queue.Cqe as CqeOps
use liburing_rs.Queue.Cqe.{Cqe}
use liburing_rs.Queue.Submission.{get_sqe}
use liburing_rs.Queue.Completion.{wait_cqe}
use liburing_rs.Uring
use liburing_rs.Examples.PollBench.Defs.{
  message, Pipe, Bench, push_polls, await_polls, bench_round, bench_loop,
}
use liburing_rs.Examples.PollBench.Program.{Piped, main}
use liburing_rs.Sim.{SimSqe, SimKernel}
use liburing_rs.Sim.Wide.{WideRing, wide, wide_empty}

abbrev kernel : SimKernel
kernel = record { live = 2; room = 4 }

-- A pipe with a number of bytes in it.
abbrev tube : Pipe
tube = record { State = ℕ; write_one = λ n. (pos 1, n + 1); read_one = λ n. (pos 1, n) }

abbrev poll : SimSqe → ℤ → ℕ → SimSqe
poll s fd mask = record s { fd = fd; len = mask }

abbrev idle : Bench wide tube poll 1
idle = record { ring = record { ring = wide_empty }; pipe = 0; nr_reqs = 0 }

bench_counts :
    bench_loop wide tube poll 1 50 (10 ∷ 60 ∷ []) idle
    ≡ some (ok (record idle { pipe = 1; nr_reqs = 32 }))
unfolding bench_loop bench_round push_polls await_polls get_sqe set_user_data set_flags bits
    Uring.submit check_ret wait_cqe CqeOps.drop
bench_counts = refl

-- The readings of the clock run out.
bench_unfinished : bench_loop wide tube poll 1 50 (10 ∷ []) idle ≡ none
unfolding bench_loop bench_round push_polls await_polls get_sqe set_user_data set_flags bits
    Uring.submit check_ret wait_cqe CqeOps.drop
bench_unfinished = refl

-- The constants have the bits of `linux/io_uring.h`.
abbrev constants : SetupConstants
constants = record {
  ioring_setup_iopoll = 2 ^ 0;
  ioring_setup_sqpoll = 2 ^ 1;
  ioring_setup_sq_aff = 2 ^ 2;
  ioring_setup_cqsize = 2 ^ 3;
  ioring_setup_clamp = 2 ^ 4;
  ioring_setup_attach_wq = 2 ^ 5;
  ioring_setup_r_disabled = 2 ^ 6;
  ioring_setup_submit_all = 2 ^ 7;
  ioring_setup_coop_taskrun = 2 ^ 8;
  ioring_setup_taskrun_flag = 2 ^ 9;
  ioring_setup_sqe128 = 2 ^ 10;
  ioring_setup_cqe32 = 2 ^ 11;
  ioring_setup_single_issuer = 2 ^ 12;
  ioring_setup_defer_taskrun = 2 ^ 13;
}

abbrev piped : ℤ → Piped ℕ
piped ret = record { ret = ret; read_fd = pos 4; write_fd = pos 5; state = 0 }

abbrev files : WideRing → List ℤ → ℕ → ℤ × WideRing
files r fds n = (pos 0, r)

abbrev ring_fd : WideRing → ℤ × WideRing
ring_fd r = (pos 1, r)

-- The ring with the flag is refused.
refuses_flag :
    (Uring.with_flags wide 1024 (setup_bits constants single_issuer) kernel).0
    ≡ err (setup (from_raw_os_error (pos 22)))
unfolding Uring.with_flags setup_bits check_ret from_ret_code
refuses_flag = refl

no_pipe :
    main wide tube poll 1 constants files ring_fd (piped (negsuc 23)) 5 [] kernel
    ≡ some (err (message "Failed to create pipe"))
unfolding main
no_pipe = refl
