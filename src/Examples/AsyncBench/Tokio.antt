-- ===== src/Examples/AsyncBench/Tokio.antt =====
-- examples/async_poll_bench.rs: the program on the tokio front end, under an executor.
use liburing_rs.Base.{ℕ, ◌≤◌, ◌≡◌, ◌⊎◌, Bool, false, true, Option, some, List}
use liburing_rs.Base.Int.{ℤ, pos, is_neg, int_eq}
use liburing_rs.Base.Outcome.{StdResult, ok, err}
use liburing_rs.Sys.{Sys}
use liburing_rs.Sys.Documented.{Documented}
use liburing_rs.Sys.Progress.{IsQuiet}
use liburing_rs.Error.{Error}
use liburing_rs.AsyncIo.Runtime.{Runtime}
use liburing_rs.AsyncIo.Tokio.{Inner, new}
use liburing_rs.AsyncIo.Tokio.Executor.{await_op}
use liburing_rs.AsyncIo.Tokio.Awaited.{Runs}
use liburing_rs.Examples.PollBench.{Pipe}
use liburing_rs.Examples.AsyncBench.Defs.{PollOp, poll_op, Bench, Run, main}

module _ (sys : Sys) (prep_poll_add : sys.Sqe → ℤ → ℕ → sys.Sqe) (rt : Runtime)
    (resume : Inner sys rt → Option (Inner sys rt)) (polls fuel : ℕ) (w : rt.Waker) where
  -- `ring.submit_op(op).await`
  abbrev pub await_poll : PollOp → Inner sys rt → Option (StdResult ℤ Error × Inner sys rt)
  await_poll op s = await_op sys rt resume ⦃o = poll_op sys prep_poll_add⦄ polls fuel w op s

  module _ (pipes : Pipe) (read_fd : ℤ) (pollin : ℕ) where
    open pipes use {State}

    -- `main`
    unfoldable pub bench :
        ℤ
        → ℕ
        → List ℕ
        → State
        → sys.Kernel
        → Run (Bench (Inner sys rt) await_poll pipes read_fd pollin × ℕ)
    bench ret now later p k =
        main (Inner sys rt) await_poll pipes read_fd pollin ret now later p (new sys rt 256 k).0

  module _ (doc : Documented sys) (pipes : Pipe) (read_fd : ℤ) (pollin : ℕ) where
    open pipes use {State, write_one, read_one}

    -- What a call may refuse to a program that starts in the system `k`, and what follows from that:
    -- with `⊥` for `F`, no call fails, and the runtime polls the task again.
    pub record Blames (F : Type 0) (k : sys.Kernel) : Type 0 where
      pub unmade : (e : Error) → (new sys rt 256 k).0 ≡ err e → F
      pub runs : Runs sys doc rt resume F
      pub unwritten : (p : State) → int_eq (write_one p).0 (pos 1) ≡ false → F
      pub unread : (p : State) → int_eq (read_one p).0 (pos 1) ≡ false → F

    module _ {F : Type 0} (k : sys.Kernel) (blames : Blames F k) (some_polls : 2 ≤ polls)
        (enough : 2 ≤ fuel) where
      abbrev poll : PollOp
      poll = record { fd = read_fd; poll_mask = pollin }

      abbrev Replies : Option (StdResult ℤ Error × Inner sys rt) → Type 0
      Replies out =
          F
          ⊎ ((z : ℤ) × (t : Inner sys rt) × (out ≡ some (ok z, t))
              × IsQuiet sys doc t.ring.ring
              × (◌≡◌ {A = Bool} false true → is_neg z ≡ false))
