-- ===== src/Queue/Cqe.antt =====
-- src/queue.rs: `Cqe`, the guard of one completion. It holds the completion's address; the ring that
-- it points to is an argument. Dropping the guard marks the completion as seen.
use liburing_rs.Base.{ℕ, Bool, not, if◌then◌else◌}
use liburing_rs.Base.Int.{ℤ, is_neg}
use liburing_rs.Base.Outcome.{StdResult, ok, err}
use liburing_rs.Sys.{Sys}
use liburing_rs.Error.{IoError, from_ret_code}

pub record Cqe : Type 0 where
  pub cqe : ℕ

module _ (sys : Sys) where
  open sys use {Ring}

  unfoldable pub user_data : Ring → Cqe → ℕ
  user_data r c = (sys.cqe_at r c.cqe).user_data

  unfoldable pub result : Ring → Cqe → ℤ
  result r c = (sys.cqe_at r c.cqe).res

  unfoldable pub flags : Ring → Cqe → ℕ
  flags r c = (sys.cqe_at r c.cqe).flags

  unfoldable pub is_success : Ring → Cqe → Bool
  is_success r c = not (is_neg (result r c))

  unfoldable pub drop : Ring → Cqe → Ring
  drop r c = sys.io_uring_cqe_seen r c.cqe

  -- It takes the guard by value, so it drops it at its end.
  unfoldable pub into_result : Ring → Cqe → StdResult ℤ IoError × Ring
  into_result r c =
      let res = result r c in (if is_neg res then err (from_ret_code res) else ok res, drop r c)
