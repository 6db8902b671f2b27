-- ===== src/Examples/PollBench/Whole.antt =====
-- examples/poll-bench.rs: what the whole program reports.
use liburing_rs.Base.{ℕ, ◌*◌, ◌/◌, ◌≤◌, ◌≡◌, List}
use liburing_rs.Base.Int.{ℤ}
use liburing_rs.Base.Outcome.{ok, err}
use liburing_rs.Sys.{Sys}
use liburing_rs.Sys.Documented.{Documented}
use liburing_rs.Sys.Progress.{IsQuiet}
use liburing_rs.Error.{Error}
use liburing_rs.Flags.{SetupConstants, setup_bits, single_issuer}
use liburing_rs.Uring
use liburing_rs.Uring.{IoUring}
use liburing_rs.Examples.Words.{add64}
use liburing_rs.Examples.PollBench.Defs.{queue_depth, Pipe, Bench}
use liburing_rs.Examples.PollBench.Program.{runtime_ms, Piped}
use liburing_rs.Examples.PollBench.Await.{Blames}
use liburing_rs.Examples.PollBench.Rounds.{rounds}

module _ (sys : Sys) (doc : Documented sys) (pipes : Pipe)
    (prep_poll_add : sys.Sqe → ℤ → ℕ → sys.Sqe) (pollin : ℕ) (setup : SetupConstants)
    (register_files : sys.Ring → List ℤ → ℕ → ℤ × sys.Ring)
    (register_ring_fd : sys.Ring → ℤ × sys.Ring) where
  open sys use {Ring, Kernel}
  open pipes use {State}

  -- A ring starts with nothing on it, and to register files changes no queue.
  pub record Registers : Type 0 where
    pub fresh :
        (flags : ℕ) (k : Kernel) (u : IoUring sys)
        → (Uring.with_flags sys 1024 flags k).0 ≡ ok u
        → IsQuiet sys doc u.ring
    pub files :
        (r : Ring) (fds : List ℤ) (n : ℕ)
        → IsQuiet sys doc r
        → IsQuiet sys doc (register_files r fds n).1
    pub ring_fd : (r : Ring) → IsQuiet sys doc r → IsQuiet sys doc (register_ring_fd r).1

  module _ (roomy : (r : Ring) → queue_depth ≤ sys.ring_entries r) (registers : Registers)
      (F : Type 0) (blames : Blames sys doc pipes prep_poll_add pollin F) where
    abbrev B : Type 0
    B = Bench sys pipes prep_poll_add pollin

    -- The reported run counted `n` requests, the rate is `n` over the time, and nothing is left over.
    abbrev pub Tells : ℕ → B × ℕ → Type 0
    Tells n (t, rate) =
        (t.nr_reqs ≡ n) × IsQuiet sys doc t.ring.ring × (rate ≡ n * 1000 / runtime_ms)

    -- Neither with the flag nor without it is there a ring, and what follows from that.
    abbrev pub Unopened : Kernel → Type 0
    Unopened k =
        (e e' : Error)
        → let (first, k') = Uring.with_flags sys 1024 (setup_bits setup single_issuer) k in
          first ≡ err e → (Uring.new sys 1024 k').0 ≡ err e' → F

    module _ (p : Piped State) (now : ℕ) (later : List ℕ) where
      abbrev pub total : ℕ
      total = queue_depth * rounds (add64 now runtime_ms) later
