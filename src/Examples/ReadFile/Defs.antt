-- ===== src/Examples/ReadFile/Defs.antt =====
-- examples/read_file.rs: `main`, behind the making and the opening of the file. The memory that the
-- kernel writes to is a parameter. What it prints of the completion is its value.
use liburing_rs.Base.{ℕ, zero, suc, true, false, Bool, Option, none, some, List, ltb, if◌then◌else◌}
use liburing_rs.Base.Int.{ℤ, pos, negsuc, as_usize}
use liburing_rs.Base.Outcome.{StdResult, ok, err, Step, ◌>>=◌, ◌>>◌}
use liburing_rs.Sys.{Sys}
use liburing_rs.Error.{Error, Result}
use liburing_rs.Ops.Traits.{Slice, set_user_data}
use liburing_rs.Ops.Read
use liburing_rs.Queue.Cqe as CqeOps
use liburing_rs.Queue.Cqe.{Cqe}
use liburing_rs.Queue.Submission.{get_sqe_or_err}
use liburing_rs.Queue.Completion.{peek_cqe}
use liburing_rs.Uring
use liburing_rs.Uring.{IoUring}
use liburing_rs.Uring.Exchange.{on_ring, on_sqe}

-- What the program prints: nothing, the code alone, or the code and the bytes. The slice of the buffer
-- panics if it has fewer bytes.
pub data Print : Type 0 where
  no_completion : Print
  bytes_read : ℤ → Print
  content : ℤ → List ℕ → Print
  out_of_bounds : Print

-- `result > 0`
abbrev pub is_positive : ℤ → Bool
is_positive (pos zero) = false
is_positive (pos (suc n)) = true
is_positive (negsuc n) = false

module _ (sys : Sys) (contents : sys.Ring → Slice → List ℕ) (fd : ℤ) (address : ℕ) where
  open sys use {Ring, Kernel}

  -- `vec![0u8; 1024]`
  abbrev pub buffer : Slice
  buffer = record { as_ptr = address; len = 1024 }

  abbrev pub print_content : ℤ → Ring → Print
  print_content result r =
      if ltb buffer.len (as_usize result)
      then out_of_bounds
      else content result (contents r (record { as_ptr = buffer.as_ptr; len = as_usize result }))

  abbrev pub print : ℤ → Ring → Print
  print result r = if is_positive result then print_content result r else bytes_read result

  -- The guard goes out of scope behind the printing.
  abbrev pub print_peeked : Option Cqe → Ring → Print × Ring
  print_peeked none r = (no_completion, r)
  print_peeked (some cqe) r = (print (CqeOps.result sys r cqe) r, CqeOps.drop sys r cqe)

  -- The part that has a ring.
  unfoldable pub run_read : Step (IoUring sys) Error Print
  run_read = do
    sqe ← on_ring sys (get_sqe_or_err sys)
    on_sqe sys sqe (Read.prepare sys (Read.from_slice fd buffer 0))
    on_sqe sys sqe (λ s. set_user_data sys s 66)
    λ u. Uring.submit_and_wait sys u 1
    on_ring sys (λ r.
        let (cqe, r') = peek_cqe sys r in
        let (printed, r'') = print_peeked cqe r' in (ok printed, r''))

  -- The ring goes out of scope at the end, and at each `?` behind its setup.
  abbrev pub with_ring : StdResult (IoUring sys) Error → Kernel → Result Print × Kernel
  with_ring (err e) k = (err e, k)
  with_ring (ok u) k = let (printed, v) = run_read u in (printed, Uring.drop sys v k)

  unfoldable pub main : Kernel → Result Print × Kernel
  main k = let (got, k') = Uring.new sys 8 k in with_ring got k'
