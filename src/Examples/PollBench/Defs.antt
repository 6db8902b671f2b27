-- ===== src/Examples/PollBench/Defs.antt =====
-- examples/poll-bench.rs: the ring that `main` makes, and its loop. The pipe, `io_uring_prep_poll_add`,
-- `libc::POLLIN` and the constants of the bindings are parameters; the clock is the list of its
-- readings. The printed lines are left out.
use Prim.Native.String.{String}
use liburing_rs.Base.{
  ℕ, zero, suc, true, false, Option, none, some, List, [], ◌∷◌, ltb, if◌then◌else◌,
}
use liburing_rs.Base.Int.{ℤ, pos, int_eq}
use liburing_rs.Base.Outcome.{StdResult, ok, err}
use liburing_rs.Sys.{Sys}
use liburing_rs.Error.{Error, Result}
use liburing_rs.Flags.{fixed_file, bits, SetupConstants, single_issuer, setup_bits}
use liburing_rs.Ops.Traits.{set_flags}
use liburing_rs.Queue.Cqe as CqeOps
use liburing_rs.Queue.Cqe.{Cqe}
use liburing_rs.Queue.Submission.{get_sqe}
use liburing_rs.Queue.Completion.{wait_cqe}
use liburing_rs.Queue.Fill.{filled}
use liburing_rs.Uring
use liburing_rs.Uring.{IoUring}
use liburing_rs.Examples.Words.{add64}

abbrev pub queue_depth : ℕ
queue_depth = 32

-- `Box<dyn Error>`
pub data BenchError : Type 0 where
  library : Error → BenchError
  message : String → BenchError

-- The pipe, with a write of one byte and a read of one byte.
pub record Pipe : Type 1 where
  pub State : Type 0
  pub write_one : State → ℤ × State
  pub read_one : State → ℤ × State

module _ (sys : Sys) where
  open sys use {Ring, Sqe, Kernel}

  abbrev pub first_or_new : Result (IoUring sys) → Kernel → Result (IoUring sys) × Kernel
  first_or_new (ok ring) k = (ok ring, k)
  first_or_new (err _) k = Uring.new sys 1024 k

  -- The ring with SINGLE_ISSUER, or else with no flags.
  unfoldable pub open_ring : SetupConstants → Kernel → Result (IoUring sys) × Kernel
  open_ring setup k =
      let (ring, k') = Uring.with_flags sys 1024 (setup_bits setup single_issuer) k in
      first_or_new ring k'

  module _ (pipes : Pipe) (prep_poll_add : Sqe → ℤ → ℕ → Sqe) (pollin : ℕ) where
    open pipes use {State, write_one, read_one}

    pub record Bench : Type 0 where
      pub ring : IoUring sys
      pub pipe : State
      pub nr_reqs : ℕ

    -- The fixed file 0 is the read end of the pipe.
    abbrev pub poll_add : Sqe → Sqe
    poll_add sqe = set_flags sys (prep_poll_add sqe (pos 0) pollin) (bits fixed_file)

    abbrev pub push_poll : Option ℕ → Ring → Ring
    push_poll none r = r
    push_poll (some p) r = filled sys poll_add 1 r p

    unfoldable pub push_polls : ℕ → Ring → Ring
    push_polls zero r = r
    push_polls (suc n) r = let (sqe, r') = get_sqe sys r in push_polls n (push_poll sqe r')

    -- The guard is dropped at the end of each round.
    abbrev pub await_round :
        (ℕ → Ring → StdResult (ℕ × Ring) BenchError)
        → ℕ
        → StdResult Cqe Error
        → Ring
        → StdResult (ℕ × Ring) BenchError
    await_round again nr_reqs (err e) r = err (library e)
    await_round again nr_reqs (ok c) r = again (add64 nr_reqs 1) (CqeOps.drop sys r c)

    unfoldable pub await_polls : ℕ → ℕ → Ring → StdResult (ℕ × Ring) BenchError
    await_polls zero nr_reqs r = ok (nr_reqs, r)
    await_polls (suc n) nr_reqs r =
        let (cqe, r') = wait_cqe sys r in await_round (await_polls n) nr_reqs cqe r'

    abbrev pub counted : State → StdResult (ℕ × Ring) BenchError → StdResult Bench BenchError
    counted p (err e) = err e
    counted p (ok (nr_reqs, r)) =
        ok (record { ring = record { ring = r }; pipe = p; nr_reqs = nr_reqs })

    -- One byte is written, to make the pipe readable, and read back.
    abbrev pub read_then : Bench → ℤ × State → StdResult Bench BenchError
    read_then s (ret, p) =
        if int_eq ret (pos 1)
        then counted p (await_polls queue_depth s.nr_reqs s.ring.ring)
        else err (message "Read failed")

    abbrev pub write_then : Bench → ℤ × State → StdResult Bench BenchError
    write_then s (ret, p) =
        if int_eq ret (pos 1) then read_then s (read_one p) else err (message "Write failed")

    -- A short submission only prints a warning.
    abbrev pub submit_then : Bench → StdResult ℕ Error × IoUring sys → StdResult Bench BenchError
    submit_then s (err e, u) = err (library e)
    submit_then s (ok submitted, u) = write_then (record s { ring = u }) (write_one s.pipe)

    unfoldable pub bench_round : Bench → StdResult Bench BenchError
    bench_round s =
        submit_then s (Uring.submit sys (record { ring = push_polls queue_depth s.ring.ring }))

    abbrev pub next_round :
        (Bench → Option (StdResult Bench BenchError))
        → StdResult Bench BenchError
        → Option (StdResult Bench BenchError)
    next_round again (err e) = some (err e)
    next_round again (ok s) = again s

    -- The loop, over the readings of the clock; `none` says that they ran out before one of them ended
    -- it.
    unfoldable pub bench_loop : ℕ → List ℕ → Bench → Option (StdResult Bench BenchError)
    bench_loop tstop [] s = none
    bench_loop tstop (now ∷ later) s = elim (ltb now tstop) [
      | true ↦ next_round (bench_loop tstop later) (bench_round s)
      | false ↦ some (ok s)
    ]
