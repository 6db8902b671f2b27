-- ===== src/Flags.antt =====
-- src/lib.rs: the module `flags`. The bits of `SetupFlags` are constants of the generated bindings, and
-- a parameter here.
use liburing_rs.Base.{ℕ, ◌^◌}

-- `SqeFlags`
pub data SqeFlags : Type 0 where
  fixed_file : SqeFlags
  io_drain : SqeFlags
  io_link : SqeFlags
  io_hardlink : SqeFlags
  async_always : SqeFlags
  buffer_select : SqeFlags
  cqe_skip_success : SqeFlags

-- `1 << n`, as a `u8`
unfoldable pub bits : SqeFlags → ℕ
bits fixed_file = 2 ^ 0
bits io_drain = 2 ^ 1
bits io_link = 2 ^ 2
bits io_hardlink = 2 ^ 3
bits async_always = 2 ^ 4
bits buffer_select = 2 ^ 5
bits cqe_skip_success = 2 ^ 6

-- The constants of the generated bindings that `SetupFlags` takes its bits from.
pub record SetupConstants : Type 0 where
  pub ioring_setup_iopoll : ℕ
  pub ioring_setup_sqpoll : ℕ
  pub ioring_setup_sq_aff : ℕ
  pub ioring_setup_cqsize : ℕ
  pub ioring_setup_clamp : ℕ
  pub ioring_setup_attach_wq : ℕ
  pub ioring_setup_r_disabled : ℕ
  pub ioring_setup_submit_all : ℕ
  pub ioring_setup_coop_taskrun : ℕ
  pub ioring_setup_taskrun_flag : ℕ
  pub ioring_setup_sqe128 : ℕ
  pub ioring_setup_cqe32 : ℕ
  pub ioring_setup_single_issuer : ℕ
  pub ioring_setup_defer_taskrun : ℕ

-- `SetupFlags`
pub data SetupFlags : Type 0 where
  iopoll : SetupFlags
  sqpoll : SetupFlags
  sq_aff : SetupFlags
  cqsize : SetupFlags
  clamp : SetupFlags
  attach_wq : SetupFlags
  r_disabled : SetupFlags
  submit_all : SetupFlags
  coop_taskrun : SetupFlags
  taskrun_flag : SetupFlags
  sqe128 : SetupFlags
  cqe32 : SetupFlags
  single_issuer : SetupFlags
  defer_taskrun : SetupFlags

unfoldable pub setup_bits : SetupConstants → SetupFlags → ℕ
setup_bits c iopoll = c.ioring_setup_iopoll
setup_bits c sqpoll = c.ioring_setup_sqpoll
setup_bits c sq_aff = c.ioring_setup_sq_aff
setup_bits c cqsize = c.ioring_setup_cqsize
setup_bits c clamp = c.ioring_setup_clamp
setup_bits c attach_wq = c.ioring_setup_attach_wq
setup_bits c r_disabled = c.ioring_setup_r_disabled
setup_bits c submit_all = c.ioring_setup_submit_all
setup_bits c coop_taskrun = c.ioring_setup_coop_taskrun
setup_bits c taskrun_flag = c.ioring_setup_taskrun_flag
setup_bits c sqe128 = c.ioring_setup_sqe128
setup_bits c cqe32 = c.ioring_setup_cqe32
setup_bits c single_issuer = c.ioring_setup_single_issuer
setup_bits c defer_taskrun = c.ioring_setup_defer_taskrun
