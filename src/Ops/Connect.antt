-- ===== src/Ops/Connect.antt =====
-- src/ops.rs: the connect operation.
use liburing_rs.Base.{ℕ}
use liburing_rs.Base.Int.{ℤ}
use liburing_rs.Sys.{Sys}
use liburing_rs.Ops.Traits.{PrepareOp}

pub record Connect : Type 0 where
  pub fd : ℤ
  pub addr : ℕ
  pub addrlen : ℕ

unfoldable pub new : ℤ → ℕ → ℕ → Connect
new fd addr addrlen = record { fd = fd; addr = addr; addrlen = addrlen }

module _ (sys : Sys) where
  open sys use {Sqe}

  unfoldable pub prepare : Connect → Sqe → Sqe
  prepare op sqe = sys.io_uring_prep_connect sqe op.fd op.addr op.addrlen

  instance abbrev pub connect_op : PrepareOp sys Connect
  connect_op = record { prepare = prepare }
