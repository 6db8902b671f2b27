-- ===== src/Ops/Close.antt =====
-- src/ops.rs: the close operation.
use liburing_rs.Base.Int.{ℤ}
use liburing_rs.Sys.{Sys}
use liburing_rs.Ops.Traits.{PrepareOp}

pub record Close : Type 0 where
  pub fd : ℤ

unfoldable pub new : ℤ → Close
new fd = record { fd = fd }

module _ (sys : Sys) where
  open sys use {Sqe}

  unfoldable pub prepare : Close → Sqe → Sqe
  prepare op sqe = sys.io_uring_prep_close sqe op.fd

  instance abbrev pub close_op : PrepareOp sys Close
  close_op = record { prepare = prepare }
