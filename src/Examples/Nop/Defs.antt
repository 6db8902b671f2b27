-- ===== src/Examples/Nop/Defs.antt =====
-- examples/nop.rs: `main`. What it prints of the completion is its value.
use liburing_rs.Base.{ℕ, Bool}
use liburing_rs.Base.Int.{ℤ}
use liburing_rs.Base.Outcome.{StdResult, ok, err, Step, ◌>>=◌, ◌>>◌}
use liburing_rs.Sys.{Sys}
use liburing_rs.Error.{Error, Result}
use liburing_rs.Ops.Traits.{set_user_data}
use liburing_rs.Ops.Nop
use liburing_rs.Ops.Nop.{nop}
use liburing_rs.Queue.Cqe as CqeOps
use liburing_rs.Queue.Submission.{get_sqe_or_err}
use liburing_rs.Queue.Completion.{wait_cqe}
use liburing_rs.Uring
use liburing_rs.Uring.{IoUring}
use liburing_rs.Uring.Exchange.{on_ring, on_sqe}

-- What the program prints.
pub record Report : Type 0 where
  pub user_data : ℕ
  pub result : ℤ
  pub success : Bool

module _ (sys : Sys) where
  open sys use {Kernel}

  -- The part that has a ring. The guard of the completion goes out of scope behind the report.
  unfoldable pub run_nop : Step (IoUring sys) Error Report
  run_nop = do
    sqe ← on_ring sys (get_sqe_or_err sys)
    on_sqe sys sqe (Nop.prepare sys nop)
    on_sqe sys sqe (λ s. set_user_data sys s 4660)
    Uring.submit sys
    cqe ← on_ring sys (wait_cqe sys)
    on_ring sys (λ r.
        let report : Report = record {
          user_data = CqeOps.user_data sys r cqe;
          result = CqeOps.result sys r cqe;
          success = CqeOps.is_success sys r cqe;
        } in
        (ok report, CqeOps.drop sys r cqe))

  -- The ring goes out of scope at the end, and at each `?` behind its setup.
  abbrev pub with_ring : StdResult (IoUring sys) Error → Kernel → Result Report × Kernel
  with_ring (err e) k = (err e, k)
  with_ring (ok u) k = let (report, v) = run_nop u in (report, Uring.drop sys v k)

  unfoldable pub main : Kernel → Result Report × Kernel
  main k = let (got, k') = Uring.new sys 8 k in with_ring got k'
