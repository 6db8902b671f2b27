-- ===== src/Ops/Fsync.antt =====
-- src/ops.rs: the fsync operation.
use liburing_rs.Base.{ℕ}
use liburing_rs.Base.Int.{ℤ}
use liburing_rs.Sys.{Sys}
use liburing_rs.Ops.Traits.{PrepareOp}

pub record Fsync : Type 0 where
  pub fd : ℤ
  pub flags : ℕ

unfoldable pub new : ℤ → Fsync
new fd = record { fd = fd; flags = 0 }

module _ (sys : Sys) where
  open sys use {Sqe}

  unfoldable pub data_sync : ℤ → Fsync
  data_sync fd = record { fd = fd; flags = sys.fsync_datasync }

  unfoldable pub prepare : Fsync → Sqe → Sqe
  prepare op sqe = sys.io_uring_prep_fsync sqe op.fd op.flags

  instance abbrev pub fsync_op : PrepareOp sys Fsync
  fsync_op = record { prepare = prepare }
