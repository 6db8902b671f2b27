-- ===== src/Examples/AsyncBench/AsyncStd.antt =====
-- examples/async_poll_bench_async_std.rs: the program on the async-std front end.
use liburing_rs.Base.{ℕ, ◌≡◌, ◌⊎◌, true, false, Option, some, List, [], ◌∷◌}
use liburing_rs.Base.Int.{ℤ, pos, is_neg, int_eq}
use liburing_rs.Base.Outcome.{StdResult, ok, err}
use liburing_rs.Sys.{Sys, IoUringCqe}
use liburing_rs.Sys.Documented.{Documented}
use liburing_rs.Sys.Progress.{IsQuiet}
use liburing_rs.Error.{Error}
use liburing_rs.Queue.Cqe as CqeOps
use liburing_rs.Queue.Cqe.{Cqe}
use liburing_rs.Uring.{IoUring}
use liburing_rs.Uring.Faults.{arrived, Faults, Silent}
use liburing_rs.AsyncIo.AsyncStd.{AsyncIoUring, new, submit_op}
use liburing_rs.Examples.PollBench.{Pipe}
use liburing_rs.Examples.AsyncBench.Defs.{PollOp, poll_op, Bench, Run, main}

module _ (sys : Sys) (prep_poll_add : sys.Sqe → ℤ → ℕ → sys.Sqe) where
  -- `ring.submit_op(op).await`
  abbrev pub await_poll : PollOp → AsyncIoUring sys → Option (StdResult ℤ Error × AsyncIoUring sys)
  await_poll op s = some (submit_op sys ⦃p = poll_op sys prep_poll_add⦄ op s)

  module _ (pipes : Pipe) (read_fd : ℤ) (pollin : ℕ) where
    open pipes use {State}

    -- `main`
    unfoldable pub bench :
        ℤ
        → ℕ
        → List ℕ
        → State
        → sys.Kernel
        → Run (Bench (AsyncIoUring sys) await_poll pipes read_fd pollin × ℕ)
    bench ret now later p k =
        main (AsyncIoUring sys) await_poll pipes read_fd pollin ret now later p (new sys 256 k).0

  module _ (doc : Documented sys) (pipes : Pipe) (read_fd : ℤ) (pollin : ℕ) where
    open sys use {Sqe}
    open doc use {sq, cq, inflight}
    open pipes use {State, write_one, read_one}

    -- What a call may refuse to a program that starts in the system `k`, and what follows from that:
    -- with `⊥` for `F`, no call fails, and the code of a poll of the pipe is not negative.
    pub record Blames (F : Type 0) (k : sys.Kernel) : Type 0 where
      pub unmade : (e : Error) → (new sys 256 k).0 ≡ err e → F
      pub faults : Faults sys doc F
      pub silent : Silent sys doc F
      pub negative :
          (u : IoUring sys) (t : Sqe) (x : IoUringCqe) (rest : List IoUringCqe)
          → sq u.ring ≡ sys.io_uring_sqe_set_data64 (prep_poll_add t read_fd pollin) 1 ∷ []
          → cq u.ring ≡ []
          → inflight u.ring ≡ []
          → cq (arrived sys doc u) ≡ x ∷ rest
          → is_neg x.res ≡ true
          → F
      pub unwritten : (p : State) → int_eq (write_one p).0 (pos 1) ≡ false → F
      pub unread : (p : State) → int_eq (read_one p).0 (pos 1) ≡ false → F

    module _ {F : Type 0} (k : sys.Kernel) (blames : Blames F k) where
      abbrev poll : PollOp
      poll = record { fd = read_fd; poll_mask = pollin }

      -- What the loop needs of an await, of its result `o` and the state `t`.
      abbrev Replies : AsyncIoUring sys → StdResult ℤ Error → Type 0
      Replies t o =
          F
          ⊎ ((z : ℤ) × (t' : AsyncIoUring sys) × (◌≡◌
                {A = Option (StdResult ℤ Error × AsyncIoUring sys)} (some (o, t)) (some (ok z, t')))
              × IsQuiet sys doc t'.ring.ring
              × (true ≡ true → is_neg z ≡ false))
