-- ===== src/Ops/Nop.antt =====
-- src/ops.rs: the no-op operation.
use liburing_rs.Sys.{Sys}
use liburing_rs.Ops.Traits.{PrepareOp}

pub data Nop : Type 0 where
  nop : Nop

module _ (sys : Sys) where
  open sys use {Sqe}

  unfoldable pub prepare : Nop → Sqe → Sqe
  prepare op sqe = sys.io_uring_prep_nop sqe

  instance abbrev pub nop_op : PrepareOp sys Nop
  nop_op = record { prepare = prepare }
