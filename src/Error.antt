-- ===== src/Error.antt =====
-- src/error.rs: the crate's error type, and the reading of a C return code.
pub mod Laws
mod Tests
use Prim.Native.String.{String, ◌++◌ as ◌<>◌}
use liburing_rs.Base.{Bool, true, false, Option, none, some, if◌then◌else◌}
use liburing_rs.Base.Int.{ℤ, is_neg, neg_i32}
use liburing_rs.Base.Outcome.{StdResult, ok, err}

-- The `io::Error`s of the crate carry an OS error number. `io::Error::from_raw_os_error` is the
-- constructor, and `raw_os_error` reads it back.
pub data IoError : Type 0 where
  from_raw_os_error : ℤ → IoError

abbrev pub raw_os_error : IoError → ℤ
raw_os_error (from_raw_os_error n) = n

pub data Error : Type 0 where
  io : IoError → Error
  setup : IoError → Error
  submission_queue_full : Error
  completion_queue_empty : Error
  invalid_operation : String → Error
  not_supported : String → Error

-- `type Result<T>`
abbrev pub Result : Type 0 → Type 0
Result A = StdResult A Error

-- `Display`, over the text of an `io::Error`.
unfoldable pub fmt : (IoError → String) → Error → String
fmt show (io e) = "I/O error: " <> show e
fmt show (setup e) = "io_uring setup failed: " <> show e
fmt show submission_queue_full = "submission queue is full"
fmt show completion_queue_empty = "no completion queue entries available"
fmt show (invalid_operation msg) = "invalid operation: " <> msg
fmt show (not_supported msg) = "feature not supported: " <> msg

unfoldable pub source : Error → Option IoError
source (io e) = some e
source (setup e) = some e
source _ = none

-- `From<io::Error>`, which `?` and `into` apply.
abbrev pub from : IoError → Error
from e = io e

unfoldable pub from_ret_code : ℤ → IoError
from_ret_code ret = from_raw_os_error (neg_i32 ret)

unfoldable pub check_ret : ℤ → StdResult ℤ IoError
check_ret ret = if is_neg ret then err (from_ret_code ret) else ok ret
