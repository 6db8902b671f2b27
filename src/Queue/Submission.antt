-- ===== src/Queue/Submission.antt =====
-- src/queue.rs: `SubmissionQueue`. It is a pointer to the ring, so each method takes and returns the
-- ring that the pointer leads to.
use liburing_rs.Base.{ℕ, ◌+◌, ◌-◌, ◌%◌, ◌^◌, Bool, Option, none, some, ◌==◌, if◌then◌else◌}
use liburing_rs.Base.Int.{is_neg, as_usize}
use liburing_rs.Base.Outcome.{ok, err}
use liburing_rs.Sys.{Sys, null}
use liburing_rs.Error.{Error, Result, submission_queue_full, from, from_ret_code}

-- `Option::ok_or`
abbrev pub ok_or : {A : Type 0} → Option A → Error → Result A
ok_or none e = err e
ok_or (some a) e = ok a

module _ (sys : Sys) where
  open sys use {Ring}

  -- The entry is handed out as its address.
  unfoldable pub get_sqe : Ring → Option ℕ × Ring
  get_sqe r = let (sqe, r') = sys.io_uring_get_sqe r in (if sqe == null then none else some sqe, r')

  unfoldable pub get_sqe_or_err : Ring → Result ℕ × Ring
  get_sqe_or_err r = let (sqe, r') = get_sqe r in (ok_or sqe submission_queue_full, r')

  unfoldable pub submit : Ring → Result ℕ × Ring
  submit r =
      let (ret, r') = sys.io_uring_submit r in
      (if is_neg ret then err (from (from_ret_code ret)) else ok (as_usize ret), r')

  unfoldable pub submit_and_wait : Ring → ℕ → Result ℕ × Ring
  submit_and_wait r wait_nr =
      let (ret, r') = sys.io_uring_submit_and_wait r wait_nr in
      (if is_neg ret then err (from (from_ret_code ret)) else ok (as_usize ret), r')

  -- `tail.wrapping_sub(head)`, and a `u32` subtraction that wraps as in a release build.
  unfoldable pub space_left : Ring → ℕ
  space_left r =
      let used = (sys.sqe_tail r + 2 ^ 32 - sys.khead r) % 2 ^ 32 in
      (sys.ring_entries r + 2 ^ 32 - used) % 2 ^ 32

  unfoldable pub is_full : Ring → Bool
  is_full r = space_left r == 0
