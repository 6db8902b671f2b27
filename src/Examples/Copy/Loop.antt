-- ===== src/Examples/Copy/Loop.antt =====
-- examples/io_uring-cp.rs: the loops of `copy_file`.
use liburing_rs.Base.{
  ℕ, zero, suc, Bool, true, false, ◌&&◌, ◌||◌, Option, none, some, List, [], ◌∷◌, ◌++◌, ltb,
  if◌then◌else◌,
}
use liburing_rs.Base.Int.{ℤ, is_neg, neg_i32, as_usize}
use liburing_rs.Sys.{Sys}
use liburing_rs.Examples.Words.{add64, sub64, min}
use liburing_rs.Examples.Outcome.{Outcome, done, fails, panics, unfinished, and_then}
use liburing_rs.Error.{io, from_raw_os_error}
use liburing_rs.Ops.Traits.{Slice}
use liburing_rs.Ops.Read
use liburing_rs.Ops.Write
use liburing_rs.Queue.Submission.{get_sqe}
use liburing_rs.Queue.Fill.{filled}
use liburing_rs.Uring.{IoUring}
use liburing_rs.Examples.Copy.Defs.{
  block_size, queue_depth, IoData, take_op, Copy, begin, submit_ring, submit_pending, drain,
  finish_writes,
}

module _ (sys : Sys) (address : ℕ → ℕ) (infd outfd : ℤ) where
  open sys use {Ring}

  -- The read of the next block; its buffer is allocated at the address for its offset.
  abbrev pub block : Copy sys → IoData
  block s =
      let size = min s.bytes_to_read block_size in
      record {
        buffer = record { as_ptr = address s.offset; len = size };
        offset = s.offset;
        len = size;
        is_read = true;
      }

  -- Without an entry the loop breaks.
  abbrev pub push_read : Copy sys → Option ℕ → Ring → Bool × Copy sys
  push_read s none r = (false, record s { ring = record { ring = r } })
  push_read s (some p) r =
      let op = block s in
      (
        true,
        record {
          ring = record {
            ring =
                filled sys (Read.prepare sys (Read.from_slice infd op.buffer s.offset)) s.offset r
                  p;
          };
          offset = add64 s.offset op.len;
          pending_operations = s.pending_operations ++ op ∷ [];
          reads_in_flight = add64 s.reads_in_flight 1;
          writes_in_flight = s.writes_in_flight;
          bytes_to_read = sub64 s.bytes_to_read op.len;
          bytes_to_write = s.bytes_to_write;
        },
      )

  abbrev pub may_read : Copy sys → Bool
  may_read s = ltb 0 s.bytes_to_read && ltb (add64 s.reads_in_flight s.writes_in_flight) queue_depth

  abbrev pub read_on : (Copy sys → Copy sys) → Bool × Copy sys → Copy sys
  read_on again (true, s) = again s
  read_on again (false, s) = s

  -- The loop that queues reads, on fuel; each round adds one to the operations in flight.
  unfoldable pub queue_reads : ℕ → Copy sys → Copy sys
  queue_reads zero s = s
  queue_reads (suc fuel) s = elim (may_read s) [
    | true ↦
        let (sqe, r) = get_sqe sys s.ring.ring in read_on (queue_reads fuel) (push_read s sqe r)
    | false ↦ s
  ]

  -- The read `op` with `len` bytes has become a write.
  abbrev pub moved : ℕ → IoData → List IoData → Copy sys → Ring → Copy sys
  moved len op rest s r = record s {
    ring = record { ring = r };
    pending_operations = rest ++ record op { len = len; is_read = false } ∷ [];
    reads_in_flight = sub64 s.reads_in_flight 1;
    writes_in_flight = add64 s.writes_in_flight 1;
  }

  -- The slice is taken only with an entry at hand.
  abbrev pub push_write : ℕ → IoData → List IoData → Copy sys → Option ℕ → Ring → Outcome (Copy sys)
  push_write len op rest s none r = submit_ring sys (moved len op rest s r)
  push_write len op rest s (some p) r =
      let part : Slice = record { as_ptr = op.buffer.as_ptr; len = len } in
      if ltb op.buffer.len len
      then panics
      else submit_ring sys (
          moved len op rest s
            (filled sys (Write.prepare sys (Write.from_slice outfd part op.offset)) op.offset r p))

  abbrev pub wrote : IoData → List IoData → Copy sys → Copy sys
  wrote op rest s = record s {
    pending_operations = rest;
    writes_in_flight = sub64 s.writes_in_flight 1;
    bytes_to_write = sub64 s.bytes_to_write op.len;
  }

  abbrev pub with_op : ℤ → Copy sys → Option (IoData × List IoData) → Outcome (Copy sys)
  with_op result s none = done s
  with_op result s (some (op, rest)) =
      let (sqe, r) = get_sqe sys s.ring.ring in
      if op.is_read then push_write (as_usize result) op rest s sqe r else done (wrote op rest s)

  -- The body of the loop over the completions.
  unfoldable pub complete : ℤ × ℕ → Copy sys → Outcome (Copy sys)
  complete (result, user_data) s =
      if is_neg result
      then fails (io (from_raw_os_error (neg_i32 result)))
      else with_op result s (take_op user_data s.pending_operations)

  unfoldable pub process : List (ℤ × ℕ) → Copy sys → Outcome (Copy sys)
  process [] s = done s
  process (c ∷ cs) s = and_then (complete c s) (process cs)

  abbrev pub process_drained : Copy sys → Option (List (ℤ × ℕ) × Ring) → Outcome (Copy sys)
  process_drained s none = unfinished
  process_drained s (some (cs, r)) = process cs (record s { ring = record { ring = r } })

  -- A round of the outer loop.
  unfoldable pub copy_round : ℕ → Copy sys → Outcome (Copy sys)
  copy_round fuel s =
      and_then (submit_pending sys (queue_reads queue_depth s))
        (λ t. process_drained t (drain sys fuel t.ring.ring []))

  abbrev pub copying : Copy sys → Bool
  copying s = ltb 0 s.bytes_to_read || ltb 0 s.bytes_to_write

  -- The outer loop; `drained` is the fuel of each round's drain sys.
  unfoldable pub copy_loop : ℕ → ℕ → Copy sys → Outcome (Copy sys)
  copy_loop zero drained s = unfinished
  copy_loop (suc fuel) drained s = elim (copying s) [
    | true ↦ and_then (copy_round drained s) (copy_loop fuel drained)
    | false ↦ done s
  ]

  unfoldable pub copy_file : ℕ → ℕ → ℕ → IoUring sys → Outcome Ring
  copy_file fuel drained file_size u =
      and_then (copy_loop fuel drained (begin sys file_size u))
        (λ s. finish_writes sys s.writes_in_flight s.ring.ring)
