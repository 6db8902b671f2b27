-- ===== src/Ops/Write.antt =====
-- src/ops.rs: the write operation.
use liburing_rs.Base.{ℕ}
use liburing_rs.Base.Int.{ℤ, as_u32}
use liburing_rs.Sys.{Sys}
use liburing_rs.Ops.Traits.{Slice, PrepareOp}

pub record Write : Type 0 where
  pub fd : ℤ
  pub buf : ℕ
  pub len : ℕ
  pub offset : ℕ

unfoldable pub new : ℤ → ℕ → ℕ → ℕ → Write
new fd buf len offset = record { fd = fd; buf = buf; len = len; offset = offset }

-- The length is cast to 32 bits.
unfoldable pub from_slice : ℤ → Slice → ℕ → Write
from_slice fd buf offset = record {
  fd = fd;
  buf = buf.as_ptr;
  len = as_u32 buf.len;
  offset = offset;
}

module _ (sys : Sys) where
  open sys use {Sqe}

  unfoldable pub prepare : Write → Sqe → Sqe
  prepare op sqe = sys.io_uring_prep_write sqe op.fd op.buf op.len op.offset

  instance abbrev pub write_op : PrepareOp sys Write
  write_op = record { prepare = prepare }
