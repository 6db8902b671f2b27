-- ===== src/Uring.antt =====
-- src/uring.rs: `IoUring`, which owns the ring.
pub mod Laws
pub mod Exchange
pub mod Lone
pub mod Load
pub mod Faults
pub mod Session
mod Tests
use liburing_rs.Base.{ℕ, ◌≡◌}
use liburing_rs.Base.Int.{ℤ, as_usize}
use liburing_rs.Base.Outcome.{StdResult, ok, err, map_ok, map_err}
use liburing_rs.Sys.{Sys}
use liburing_rs.Error.{Error, Result, setup, from, check_ret}

module _ (sys : Sys) where
  open sys use {Ring, Kernel, Params}

  pub record IoUring : Type 0 where
    pub ring : Ring

  -- `check_ret(ret).map_err(Error::Setup)?`, and the ring only behind it.
  unfoldable pub with_flags : ℕ → ℕ → Kernel → Result IoUring × Kernel
  with_flags entries flags k =
      let (ret, ring, k') = sys.io_uring_queue_init entries flags k in
      (map_ok (λ _. record { ring = ring }) (map_err setup (check_ret ret)), k')

  -- `SetupFlags::empty()` is 0.
  unfoldable pub new : ℕ → Kernel → Result IoUring × Kernel
  new entries k = with_flags entries 0 k

  unfoldable pub with_params : ℕ → Params → Kernel → Result IoUring × Params × Kernel
  with_params entries params k =
      let (ret, params', ring, k') = sys.io_uring_queue_init_params entries params k in
      (map_ok (λ _. record { ring = ring }) (map_err setup (check_ret ret)), params', k')

  unfoldable pub submit : IoUring → Result ℕ × IoUring
  submit u =
      let (ret, r') = sys.io_uring_submit u.ring in
      (map_err from (map_ok as_usize (check_ret ret)), record { ring = r' })

  unfoldable pub submit_and_wait : IoUring → ℕ → Result ℕ × IoUring
  submit_and_wait u wait_nr =
      let (ret, r') = sys.io_uring_submit_and_wait u.ring wait_nr in
      (map_err from (map_ok as_usize (check_ret ret)), record { ring = r' })

  -- The queue points into the ring; what its methods leave is the ring again.
  unfoldable pub submission : IoUring → Ring
  submission u = u.ring

  unfoldable pub completion : IoUring → Ring
  completion u = u.ring

  unfoldable pub as_raw_fd : IoUring → ℤ
  as_raw_fd u = sys.ring_fd u.ring

  unfoldable pub drop : IoUring → Kernel → Kernel
  drop u k = sys.io_uring_queue_exit u.ring k
