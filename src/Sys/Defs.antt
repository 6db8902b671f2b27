-- ===== src/Sys/Defs.antt =====
-- The declarations of src/sys.rs and of the generated bindings, as a record of operations.
use liburing_rs.Base.{ℕ, List}
use liburing_rs.Base.Int.{ℤ}

abbrev pub null : ℕ
null = 0

-- `struct io_uring_cqe`
pub record IoUringCqe : Type 0 where
  pub user_data : ℕ
  pub res : ℤ
  pub flags : ℕ

pub record Sys : Type 1 where
  -- the operating system, which makes rings and takes them back
  pub Kernel : Type 0
  -- `struct io_uring_params`
  pub Params : Type 0
  -- `struct io_uring`, its two queues and the kernel's side of the ring
  pub Ring : Type 0
  -- `struct io_uring_sqe`
  pub Sqe : Type 0
  pub io_uring_queue_init : ℕ → ℕ → Kernel → ℤ × Ring × Kernel
  pub io_uring_queue_init_params : ℕ → Params → Kernel → ℤ × Params × Ring × Kernel
  pub io_uring_queue_exit : Ring → Kernel → Kernel
  pub ring_fd : Ring → ℤ
  pub khead : Ring → ℕ
  pub sqe_tail : Ring → ℕ
  pub ring_entries : Ring → ℕ
  pub io_uring_get_sqe : Ring → ℕ × Ring
  -- `*sqe` as a value, and a write to `*sqe`
  pub sqe_at : Ring → ℕ → Sqe
  pub set_sqe : Ring → ℕ → Sqe → Ring
  pub io_uring_submit : Ring → ℤ × Ring
  pub io_uring_submit_and_wait : Ring → ℕ → ℤ × Ring
  pub io_uring_wait_cqe_timeout : Ring → ℕ → ℤ × ℕ × Ring
  pub io_uring_peek_cqe : Ring → ℕ → ℤ × ℕ × Ring
  -- the slots of the caller's array, and how many of them may be filled
  pub io_uring_peek_batch_cqe : Ring → List ℕ → ℕ → ℕ × List ℕ × Ring
  pub cqe_at : Ring → ℕ → IoUringCqe
  pub io_uring_cqe_seen : Ring → ℕ → Ring
  pub io_uring_prep_read : Sqe → ℤ → ℕ → ℕ → ℕ → Sqe
  pub io_uring_prep_write : Sqe → ℤ → ℕ → ℕ → ℕ → Sqe
  pub io_uring_prep_fsync : Sqe → ℤ → ℕ → Sqe
  pub io_uring_prep_nop : Sqe → Sqe
  pub io_uring_prep_accept : Sqe → ℤ → ℕ → ℕ → ℤ → Sqe
  pub io_uring_prep_connect : Sqe → ℤ → ℕ → ℕ → Sqe
  pub io_uring_prep_close : Sqe → ℤ → Sqe
  pub io_uring_sqe_set_data64 : Sqe → ℕ → Sqe
  pub io_uring_sqe_set_flags : Sqe → ℕ → Sqe
  -- `IORING_FSYNC_DATASYNC`
  pub fsync_datasync : ℕ
