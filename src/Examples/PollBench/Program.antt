-- ===== src/Examples/PollBench/Program.antt =====
-- examples/poll-bench.rs: `main`, around its loop. `libc::pipe`, `io_uring_register_files` and
-- `io_uring_register_ring_fd` are parameters. Of what it prints, its value has the rate. The closing of
-- the pipe and the drop of the ring at the end are left out.
use liburing_rs.Base.{ℕ, ◌/◌, Option, none, some, List, [], ◌∷◌, if◌then◌else◌}
use liburing_rs.Base.Int.{ℤ, pos, int_eq}
use liburing_rs.Base.Outcome.{StdResult, ok, err}
use liburing_rs.Sys.{Sys}
use liburing_rs.Error.{Result}
use liburing_rs.Flags.{SetupConstants}
use liburing_rs.Uring.{IoUring}
use liburing_rs.Examples.Words.{add64, mul64}
use liburing_rs.Examples.PollBench.Defs.{
  BenchError, library, message, Pipe, Bench, open_ring, bench_loop,
}

abbrev pub runtime_ms : ℕ
runtime_ms = 10000

-- `(nr_reqs * 1000) / RUNTIME_MS`
abbrev pub requests_per_sec : ℕ → ℕ
requests_per_sec nr_reqs = mul64 nr_reqs 1000 / runtime_ms

-- What `libc::pipe` leaves.
pub record Piped (State : Type 0) : Type 0 where
  pub ret : ℤ
  pub read_fd : ℤ
  pub write_fd : ℤ
  pub state : State

module _ (sys : Sys) (pipes : Pipe) (prep_poll_add : sys.Sqe → ℤ → ℕ → sys.Sqe) (pollin : ℕ)
    (setup : SetupConstants) (register_files : sys.Ring → List ℤ → ℕ → ℤ × sys.Ring)
    (register_ring_fd : sys.Ring → ℤ × sys.Ring) where
  open sys use {Ring, Kernel}
  open pipes use {State}

  -- A code that is negative only prints a warning.
  unfoldable pub registered : ℤ → ℤ → Ring → Ring
  registered read_fd write_fd r =
      let (_, r') = register_files r (read_fd ∷ write_fd ∷ []) 2 in
      let (_, r'') = register_ring_fd r' in r''

  abbrev pub begin : Piped State → Ring → Bench sys pipes prep_poll_add pollin
  begin p r = record {
    ring = record { ring = registered p.read_fd p.write_fd r };
    pipe = p.state;
    nr_reqs = 0;
  }

  abbrev pub reported :
      Option (StdResult (Bench sys pipes prep_poll_add pollin) BenchError)
      → Option (StdResult (Bench sys pipes prep_poll_add pollin × ℕ) BenchError)
  reported none = none
  reported (some (err e)) = some (err e)
  reported (some (ok s)) = some (ok (s, requests_per_sec s.nr_reqs))

  -- The first reading of the clock is the start.
  abbrev pub benchmark :
      Piped State
      → ℕ
      → List ℕ
      → Result (IoUring sys)
      → Option (StdResult (Bench sys pipes prep_poll_add pollin × ℕ) BenchError)
  benchmark p now later (err e) = some (err (library e))
  benchmark p now later (ok u) =
      reported
        (bench_loop sys pipes prep_poll_add pollin (add64 now runtime_ms) later (begin p u.ring))

  unfoldable pub main :
      Piped State
      → ℕ
      → List ℕ
      → Kernel
      → Option (StdResult (Bench sys pipes prep_poll_add pollin × ℕ) BenchError)
  main p now later k =
      if int_eq p.ret (pos 0)
      then benchmark p now later (open_ring sys setup k).0
      else some (err (message "Failed to create pipe"))
