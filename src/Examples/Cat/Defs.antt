-- ===== src/Examples/Cat/Defs.antt =====
-- examples/cat.rs: `cat_file`. The memory that the kernel writes to, the allocator of the buffers and
-- the standard output are parameters.
use liburing_rs.Base.{ℕ, zero, suc, true, false, List, ltb, ◌==◌, if◌then◌else◌}
use liburing_rs.Base.Int.{ℤ, is_neg, neg_i32, as_usize}
use liburing_rs.Base.Outcome.{StdResult, ok, err, Step, ◌>>=◌, ◌>>◌}
use liburing_rs.Sys.{Sys}
use liburing_rs.Error.{Error, IoError, Result, io, from_raw_os_error, from}
use liburing_rs.Ops.Traits.{Slice, set_user_data}
use liburing_rs.Ops.Read
use liburing_rs.Queue.Cqe as CqeOps
use liburing_rs.Queue.Submission.{get_sqe_or_err}
use liburing_rs.Queue.Completion.{wait_cqe}
use liburing_rs.Uring
use liburing_rs.Uring.{IoUring}
use liburing_rs.Uring.Exchange.{on_ring, on_sqe}
use liburing_rs.Examples.Words.{add64}
use liburing_rs.Examples.Outcome.{Outcome, done, fails, panics, unfinished, and_then}

abbrev pub block_size : ℕ
block_size = 4096

-- `std::io::StdoutLock`, and `write_all` of `std::io::Write`.
pub record Stdout : Type 1 where
  pub Handle : Type 0
  pub write_all : List ℕ → Handle → StdResult (Unit {0}) IoError × Handle

-- The result of a completion as a number of bytes, or as an error.
abbrev pub bytes_of : ℤ → Result ℕ
bytes_of result =
    if is_neg result then err (io (from_raw_os_error (neg_i32 result))) else ok (as_usize result)

module _ (sys : Sys) where
  -- The part of a round that reads. The guard of the completion is dropped behind its result.
  unfoldable pub read_block : ℤ → Slice → ℕ → Step (IoUring sys) Error ℕ
  read_block fd buffer offset = do
    sqe ← on_ring sys (get_sqe_or_err sys)
    on_sqe sys sqe (Read.prepare sys (Read.from_slice fd buffer offset))
    on_sqe sys sqe (λ s. set_user_data sys s 1)
    λ u. Uring.submit_and_wait sys u 1
    cqe ← on_ring sys (wait_cqe sys)
    on_ring sys (λ r. (bytes_of (CqeOps.result sys r cqe), CqeOps.drop sys r cqe))

  module _ (contents : sys.Ring → Slice → List ℕ) (address : ℕ → ℕ) (out : Stdout) (fd : ℤ) where
    open out use {Handle, write_all}

    -- The variables of `cat_file`.
    pub record Cat : Type 0 where
      pub ring : IoUring sys
      pub offset : ℕ
      pub handle : Handle

    -- `vec![0u8; BLOCK_SIZE]`
    abbrev pub buffer : Cat → Slice
    buffer s = record { as_ptr = address s.offset; len = block_size }

    abbrev pub written : Cat → ℕ → StdResult (Unit {0}) IoError × Handle → Outcome Cat
    written s bytes_read (ok _, h) =
        done (record s { offset = add64 s.offset bytes_read; handle = h })
    written s bytes_read (err e, h) = fails (from e)

    -- `handle.write_all(&buffer[..bytes_read])?`, and the new offset.
    unfoldable pub write_block : ℕ → Cat → Outcome Cat
    write_block bytes_read s =
        if ltb (buffer s).len bytes_read
        then panics
        else written s bytes_read (
            write_all
              (contents s.ring.ring (record { as_ptr = (buffer s).as_ptr; len = bytes_read }))
              s.handle)

    abbrev pub cat_round : (Cat → Outcome Cat) → StdResult ℕ Error → Cat → Outcome Cat
    cat_round again (err e) s = fails e
    cat_round again (ok bytes_read) s = elim (bytes_read == 0) [
      | true ↦ done s
      | false ↦ and_then (write_block bytes_read s) again
    ]

    -- The loop, on fuel.
    unfoldable pub cat_loop : ℕ → Cat → Outcome Cat
    cat_loop zero s = unfinished
    cat_loop (suc fuel) s =
        let (bytes_read, u) = read_block fd (buffer s) s.offset s.ring in
        cat_round (cat_loop fuel) bytes_read (record s { ring = u })

    unfoldable pub cat_file : ℕ → IoUring sys → Handle → Outcome Cat
    cat_file fuel ring handle = cat_loop fuel (record { ring = ring; offset = 0; handle = handle })
