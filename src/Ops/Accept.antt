-- ===== src/Ops/Accept.antt =====
-- src/ops.rs: the accept operation.
use liburing_rs.Base.{ℕ}
use liburing_rs.Base.Int.{ℤ}
use liburing_rs.Sys.{Sys}
use liburing_rs.Ops.Traits.{PrepareOp}

pub record Accept : Type 0 where
  pub fd : ℤ
  pub addr : ℕ
  pub addrlen : ℕ
  pub flags : ℤ

unfoldable pub new : ℤ → ℕ → ℕ → ℤ → Accept
new fd addr addrlen flags = record { fd = fd; addr = addr; addrlen = addrlen; flags = flags }

module _ (sys : Sys) where
  open sys use {Sqe}

  unfoldable pub prepare : Accept → Sqe → Sqe
  prepare op sqe = sys.io_uring_prep_accept sqe op.fd op.addr op.addrlen op.flags

  instance abbrev pub accept_op : PrepareOp sys Accept
  accept_op = record { prepare = prepare }
