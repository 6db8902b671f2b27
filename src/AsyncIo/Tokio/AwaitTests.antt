-- ===== src/AsyncIo/Tokio/AwaitTests.antt =====
-- Tests of src/async_io/tokio_impl.rs under an executor, and the instance of its theorem.
use liburing_rs.Base.{◌≡◌, refl, ◌⊎◌, none, some, [], ◌∷◌, false, Option, arith}
use liburing_rs.Base.Int.{ℤ, pos}
use liburing_rs.Base.Map.{lookup, erase, insert}
use liburing_rs.Base.Outcome.{ok}
use liburing_rs.Error.{check_ret}
use liburing_rs.Ops.Accept
use liburing_rs.Ops.Accept.{Accept}
use liburing_rs.Ops.Nop
use liburing_rs.Ops.Nop.{Nop, nop}
use liburing_rs.Ops.Traits.{PrepareOp, set_user_data}
use liburing_rs.Queue.Cqe
use liburing_rs.Queue.Submission.{get_sqe_or_err, get_sqe}
use liburing_rs.Queue.Completion.{peek_cqe}
use liburing_rs.Uring
use liburing_rs.Sim.{SimSqe, sim, sim_runtime, empty_ring}
use liburing_rs.Sim.Eager.{eager, eager_documented}
use liburing_rs.Sim.Wakeful.{eager_resume, eager_runs}
use liburing_rs.AsyncIo.Tokio.Defs.{
  Inner, check, check_round, await_fd, poll, start, take_user_data, submit_op, match_readiness,
  poll_completion, finish,
}
use liburing_rs.AsyncIo.Tokio.Executor.{drive, await_op}
use liburing_rs.AsyncIo.Tokio.Awaited.{Answers, await_op-Answers}

-- A listener whose connection comes while the task sleeps.
abbrev listening : Inner sim sim_runtime
listening = record {
  ring = record { ring = empty_ring };
  async_fd = record { flag = false; waker = none };
  wakers = [];
  next_user_data = 1;
}

instance abbrev sim_accept : PrepareOp sim Accept
sim_accept = Accept.accept_op sim

abbrev listen : Accept
listen = record { fd = pos 3; addr = 0; addrlen = 0; flags = pos 0 }

abbrev connect : Inner sim sim_runtime → Option (Inner sim sim_runtime)
connect s = some (record s {
  ring = record {
    ring = record empty_ring { done = record { user_data = 1; res = pos 7; flags = 0 } ∷ [] };
  };
})

accepts :
    await_op sim sim_runtime connect 2 5 10 listen listening
    ≡ some (
      ok (pos 7),
      record listening { async_fd = record { flag = false; waker = some 10 }; next_user_data = 2 },
    )
unfolding await_op drive poll start take_user_data submit_op get_sqe_or_err get_sqe set_user_data
    Accept.prepare Uring.submit check_ret poll_completion check check_round finish await_fd
    match_readiness peek_cqe Cqe.user_data Cqe.result Cqe.drop lookup erase insert
accepts = refl

-- It never wakes up.
sleeps : await_op sim sim_runtime (λ s. none) 2 5 10 listen listening ≡ none
unfolding await_op drive poll start take_user_data submit_op get_sqe_or_err get_sqe set_user_data
    Accept.prepare Uring.submit check_ret poll_completion check check_round finish await_fd
    match_readiness peek_cqe Cqe.user_data Cqe.result Cqe.drop lookup erase insert
sleeps = refl

abbrev answering : SimSqe → ℤ
answering s = pos 0

instance abbrev eager_nop : PrepareOp (eager answering) Nop
eager_nop = Nop.nop_op (eager answering)

abbrev begun : Inner (eager answering) sim_runtime
begun = record {
  ring = record { ring = empty_ring };
  async_fd = record { flag = false; waker = none };
  wakers = [];
  next_user_data = 1;
}

await_op-Answers_example :
    ⊥
    ⊎ Answers
        (eager answering)
        (eager_documented answering)
        sim_runtime
        (eager_resume answering)
        1
        (await_op (eager answering) sim_runtime (eager_resume answering) 2 5 10 nop begun)
await_op-Answers_example =
    await_op-Answers (eager answering) (eager_documented answering) sim_runtime
      (eager_resume answering) (eager_runs answering) 10 Nop 2 5 nop begun (omega arith)
      (omega arith) (record { queue = refl; done = refl; flight = refl })
