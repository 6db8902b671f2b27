-- ===== src/Error/Tests.antt =====
-- Tests of src/error.rs, and the instances of its theorems.
use liburing_rs.Base.{◌≡◌, refl, some, arith}
use liburing_rs.Base.Int.{pos, negsuc}
use liburing_rs.Base.Outcome.{err}
use liburing_rs.Error.{
  setup, submission_queue_full, from_raw_os_error, source, fmt, from_ret_code, check_ret,
}
use liburing_rs.Error.Laws.{Reads, check_ret-Reads}

-- ENOENT is 2.
check_ret_enoent : check_ret (negsuc 1) ≡ err (from_raw_os_error (pos 2))
unfolding check_ret from_ret_code
check_ret_enoent = refl

source_setup : source (setup (from_raw_os_error (pos 12))) ≡ some (from_raw_os_error (pos 12))
unfolding source
source_setup = refl

fmt_full : fmt (λ e. "") submission_queue_full ≡ "submission queue is full"
unfolding fmt
fmt_full = refl

check_ret-Reads_example : Reads (negsuc 4) (check_ret (negsuc 4))
check_ret-Reads_example = check_ret-Reads (negsuc 4) (omega arith)
