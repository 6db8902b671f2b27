-- ===== src/Examples/AsyncBench/Whole.antt =====
-- examples/async_poll_bench.rs and examples/async_poll_bench_async_std.rs: what the whole program counts,
-- and the rate.
use liburing_rs.Base.{
  length, ℕ, ◌+◌, ◌*◌, ◌/◌, ◌^◌, ◌<◌, ◌≡◌, refl, inl, inr, false, Bool, Bool-cases, Option, List,
  arith,
}
use liburing_rs.Base.Int.{ℤ, pos, int_eq}
use liburing_rs.Base.Outcome.{StdResult, ok, err}
use liburing_rs.Error.{Error}
use liburing_rs.Examples.PollBench.{Pipe, runtime_ms}
use liburing_rs.Examples.PollBench.Rounds.{rounds}
use liburing_rs.Examples.AsyncBench.Defs.{batch_size, PollOp, Bench, run, rated, main}
use liburing_rs.Examples.AsyncBench.Loop.{Ends, and_then-Ends, Serves, Counts, run-Ends}

module _ (AsyncIoUring : Type 0)
    (submit_op : PollOp → AsyncIoUring → Option (StdResult ℤ Error × AsyncIoUring)) (pipes : Pipe)
    (read_fd : ℤ) (pollin : ℕ) (F : Type 0) (Idle : AsyncIoUring → Type 0) (sure : Bool)
    (serves : Serves AsyncIoUring submit_op pipes read_fd pollin F Idle sure) where
  open pipes use {State}

  abbrev B : Type 0
  B = Bench AsyncIoUring submit_op pipes read_fd pollin

  -- The counter is at `n` at most, and at `n` where that is sure, and the rate is over ten seconds.
  abbrev pub Tells : ℕ → B × ℕ → Type 0
  Tells n (t, rate) =
      Counts AsyncIoUring submit_op pipes read_fd pollin F Idle sure 0 n t
      × (rate ≡ t.nr_reqs * 1000 / runtime_ms)

  rated-Ends :
      (n : ℕ) (t : B)
      → n * 1000 < 2 ^ 64
      → Counts AsyncIoUring submit_op pipes read_fd pollin F Idle sure 0 n t
      → Ends F (Tells n) (rated AsyncIoUring submit_op pipes read_fd pollin t)
  rated-Ends n t small (low, high, idle) =
      inr ((t, _), refl, ((low, high, idle), omega (arith, high, small)))

  pub main-Ends :
      (ret : ℤ) (now : ℕ) (later : List ℕ) (p : State) (ring : StdResult AsyncIoUring Error)
      → (int_eq ret (pos 0) ≡ false → F)
      → ((e : Error) → ring ≡ err e → F)
      → ((s : AsyncIoUring) → ring ≡ ok s → Idle s)
      → rounds (now + runtime_ms) later < length later
      → batch_size * rounds (now + runtime_ms) later * 1000 < 2 ^ 64
      → Ends F
          (Tells (batch_size * rounds (now + runtime_ms) later))
          (main AsyncIoUring submit_op pipes read_fd pollin ret now later p ring)
  unfolding main
  main-Ends ret now later p ring unpiped unmade fresh over small =
      let n = batch_size * rounds (now + runtime_ms) later in
      elim (Bool-cases (int_eq ret (pos 0))) [
        | inl made ↦ rw made (
            and_then-Ends F (Counts AsyncIoUring submit_op pipes read_fd pollin F Idle sure 0 n)
              (Tells n)
              (run AsyncIoUring submit_op pipes read_fd pollin (now + runtime_ms) later p ring)
              (rated AsyncIoUring submit_op pipes read_fd pollin)
              (run-Ends AsyncIoUring submit_op pipes read_fd pollin F Idle sure serves
                (now + runtime_ms) later p ring unmade fresh over (omega (arith, small)))
              (λ t. rated-Ends n t small))
        | inr unmade ↦ inl (unpiped unmade)
      ]
