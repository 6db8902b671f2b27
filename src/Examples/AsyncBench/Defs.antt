-- ===== src/Examples/AsyncBench/Defs.antt =====
-- examples/async_poll_bench.rs and examples/async_poll_bench_async_std.rs: the operation and the loop,
-- which the two files share. The await of `ring.submit_op(..)`, the pipe, `io_uring_prep_poll_add` and
-- `libc::POLLIN` are parameters; the clock is the list of its readings.
-- Of what they print, the value has the rate; the closing of the pipe is left out.
use liburing_rs.Base.{
  ℕ, ◌+◌, zero, suc, true, false, Option, none, some, List, [], ◌∷◌, ltb, if◌then◌else◌,
}
use liburing_rs.Base.Int.{ℤ, pos, is_neg, int_eq}
use liburing_rs.Base.Outcome.{StdResult, ok, err}
use liburing_rs.Sys.{Sys}
use liburing_rs.Error.{Error}
use liburing_rs.Ops.Traits.{PrepareOp}
use liburing_rs.Examples.Words.{add64}
use liburing_rs.Examples.PollBench.{
  BenchError, library, message, Pipe, runtime_ms, requests_per_sec,
}

abbrev pub batch_size : ℕ
batch_size = 32

pub record PollOp : Type 0 where
  pub fd : ℤ
  pub poll_mask : ℕ

module _ (sys : Sys) (prep_poll_add : sys.Sqe → ℤ → ℕ → sys.Sqe) where
  unfoldable pub prepare : PollOp → sys.Sqe → sys.Sqe
  prepare op sqe = prep_poll_add sqe op.fd op.poll_mask

  instance abbrev pub poll_op : PrepareOp sys PollOp
  poll_op = record { prepare = prepare }

-- How a part of the program ends: with a value, by `return Err(..)`, or not at all, because an await
-- never does, or because the readings of the clock ran out before one of them ended the loop.
pub data Run (A : Type 0) : Type 0 where
  ended : A → Run A
  failed : BenchError → Run A
  waits : Run A
  unfinished : Run A

abbrev pub and_then : {A B : Type 0} → Run A → (A → Run B) → Run B
and_then (ended a) f = f a
and_then (failed e) f = failed e
and_then waits f = waits
and_then unfinished f = unfinished

-- `nr_reqs += 1` for a result that is not negative; an error is only printed.
abbrev pub count_reply : StdResult ℤ Error → ℕ → ℕ
count_reply (ok result) nr_reqs = if is_neg result then nr_reqs else add64 nr_reqs 1
count_reply (err e) nr_reqs = nr_reqs

module _ (AsyncIoUring : Type 0)
    (submit_op : PollOp → AsyncIoUring → Option (StdResult ℤ Error × AsyncIoUring)) (pipes : Pipe)
    (read_fd : ℤ) (pollin : ℕ) where
  open pipes use {State, write_one, read_one}

  pub record Bench : Type 0 where
    pub ring : AsyncIoUring
    pub pipe : State
    pub nr_reqs : ℕ

  abbrev pub read_then : Bench → ℤ × State → Run Bench
  read_then s (ret, p) =
      if int_eq ret (pos 1) then ended (record s { pipe = p }) else failed (message "Read failed")

  abbrev pub replied : Bench → Option (StdResult ℤ Error × AsyncIoUring) → Run Bench
  replied s none = waits
  replied s (some (result, ring)) =
      read_then (record s { ring = ring; nr_reqs = count_reply result s.nr_reqs }) (read_one s.pipe)

  abbrev pub write_then : Bench → ℤ × State → Run Bench
  write_then s (ret, p) =
      if int_eq ret (pos 1)
      then replied (record s { pipe = p })
          (submit_op (record { fd = read_fd; poll_mask = pollin }) s.ring)
      else failed (message "Write failed")

  -- One byte is written, to make the pipe readable, the poll is awaited, and the byte is read back.
  unfoldable pub poll_once : Bench → Run Bench
  poll_once s = write_then s (write_one s.pipe)

  unfoldable pub batch : ℕ → Bench → Run Bench
  batch zero s = ended s
  batch (suc n) s = and_then (poll_once s) (batch n)

  -- The loop, over the readings of the clock.
  unfoldable pub bench_loop : ℕ → List ℕ → Bench → Run Bench
  bench_loop deadline [] s = unfinished
  bench_loop deadline (now ∷ later) s = elim (ltb now deadline) [
    | true ↦ and_then (batch batch_size s) (bench_loop deadline later)
    | false ↦ ended s
  ]

  -- The ring comes from `AsyncIoUring::new(256)?`.
  abbrev pub begin : State → StdResult AsyncIoUring Error → Run Bench
  begin p (err e) = failed (library e)
  begin p (ok ring) = ended (record { ring = ring; pipe = p; nr_reqs = 0 })

  -- The loop on the ring that was made, if it was.
  unfoldable pub run : ℕ → List ℕ → State → StdResult AsyncIoUring Error → Run Bench
  run deadline times p ring = and_then (begin p ring) (bench_loop deadline times)

  abbrev pub rated : Bench → Run (Bench × ℕ)
  rated s = ended (s, requests_per_sec s.nr_reqs)

  -- `main`, where `ret` is the code of `libc::pipe`, and the first reading of the clock is the start.
  unfoldable pub main : ℤ → ℕ → List ℕ → State → StdResult AsyncIoUring Error → Run (Bench × ℕ)
  main ret now later p ring =
      if int_eq ret (pos 0)
      then and_then (run (now + runtime_ms) later p ring) rated
      else failed (message "Failed to create pipe")
