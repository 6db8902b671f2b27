-- ===== src/Ops/Traits.antt =====
-- src/ops.rs: the traits `PrepareOp` and `SqeExt`, and a byte slice as address and length. A
-- `&mut io_uring_sqe` is the entry that it leads to, handed back as the call leaves it.
use liburing_rs.Base.{ℕ}
use liburing_rs.Sys.{Sys}

-- `&[u8]` and `&mut [u8]`
pub record Slice : Type 0 where
  pub as_ptr : ℕ
  pub len : ℕ

module _ (sys : Sys) where
  open sys use {Sqe}

  pub record PrepareOp (Op : Type 0) : Type 0 where
    pub prepare : Op → Sqe → Sqe

  unfoldable pub set_user_data : Sqe → ℕ → Sqe
  set_user_data sqe user_data = sys.io_uring_sqe_set_data64 sqe user_data

  -- `flags as u32` widens a `u8`, and changes nothing.
  unfoldable pub set_flags : Sqe → ℕ → Sqe
  set_flags sqe flags = sys.io_uring_sqe_set_flags sqe flags
