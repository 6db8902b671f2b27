-- ===== src/Examples/LinkCp/Defs.antt =====
-- examples/link-cp.rs: `copy_file_linked`. A buffer is its address and its length; the allocator is a
-- parameter, and so is the number `libc::ECANCELED`. An error drops the state.
use liburing_rs.Base.{
  ℕ, zero, suc, ◌*◌, ◌/◌, ◌%◌, Bool, true, false, ◌&&◌, ◌||◌, not, Option, none, some, List, [],
  ◌∷◌, ◌++◌, ltb, ◌==◌, length, if◌then◌else◌,
}
use liburing_rs.Base.Int.{ℤ, pos, is_neg, is_pos, neg_i32, as_usize, int_eq}
use liburing_rs.Base.Outcome.{StdResult, ok, err}
use liburing_rs.Sys.{Sys}
use liburing_rs.Error.{Error, io, from_raw_os_error}
use liburing_rs.Flags.{io_link, bits}
use liburing_rs.Ops.Traits.{Slice, set_flags}
use liburing_rs.Ops.Read
use liburing_rs.Ops.Write
use liburing_rs.Queue.Cqe as CqeOps
use liburing_rs.Queue.Cqe.{Cqe}
use liburing_rs.Queue.Submission.{get_sqe}
use liburing_rs.Queue.Completion.{peek_cqe}
use liburing_rs.Queue.Fill.{filled}
use liburing_rs.Uring
use liburing_rs.Uring.{IoUring}
use liburing_rs.Examples.Words.{add64, sub64, mul64, min}
use liburing_rs.Examples.Outcome.{Outcome, done, fails, unfinished, and_then}

abbrev pub queue_depth : ℕ
queue_depth = 64

abbrev pub block_size : ℕ
block_size = 32 * 1024

pub record IoData : Type 0 where
  pub buffer : Slice
  pub offset : ℕ
  pub completed_ops : ℕ

-- `operations.get_mut(op_index)`, with a change of what it leads to.
unfoldable pub modify : (IoData → IoData) → List IoData → ℕ → List IoData
modify f [] i = []
modify f (op ∷ ops) zero = f op ∷ ops
modify f (op ∷ ops) (suc i) = op ∷ modify f ops i

-- `op.completed_ops += 1`, and `truncate` after a read that gave some bytes.
abbrev pub shorten : Bool → ℤ → Slice → Slice
shorten is_read result buffer =
    if is_read && is_pos result
    then record { as_ptr = buffer.as_ptr; len = min buffer.len (as_usize result) }
    else buffer

abbrev pub bump : Bool → ℤ → IoData → IoData
bump is_read result op = record {
  buffer = shorten is_read result op.buffer;
  offset = op.offset;
  completed_ops = add64 op.completed_ops 1;
}

module _ (sys : Sys) where
  -- The variables of `copy_file_linked`.
  pub record Linked : Type 0 where
    pub ring : IoUring sys
    pub offset : ℕ
    pub operations : List IoData
    pub inflight : ℕ

  abbrev pub begin : IoUring sys → Linked
  begin u = record { ring = u; offset = 0; operations = []; inflight = 0 }

  module _ (address : ℕ → ℕ) (ecanceled : ℕ) (infd outfd : ℤ) (file_size : ℕ) where
    open sys use {Ring, Sqe}

    abbrev pub size_of : Linked → ℕ
    size_of s = min (sub64 file_size s.offset) block_size

    abbrev pub buffer_of : Linked → Slice
    buffer_of s = record { as_ptr = address s.offset; len = size_of s }

    -- Even = read, odd = write.
    abbrev pub read_key : Linked → ℕ
    read_key s = mul64 (length s.operations) 2

    abbrev pub write_key : Linked → ℕ
    write_key s = add64 (mul64 (length s.operations) 2) 1

    abbrev pub linked_read : Linked → Sqe → Sqe
    linked_read s sqe =
        set_flags sys (Read.prepare sys (Read.from_slice infd (buffer_of s) s.offset) sqe)
          (bits io_link)

    abbrev pub write_after : Linked → Sqe → Sqe
    write_after s = Write.prepare sys (Write.from_slice outfd (buffer_of s) s.offset)

    -- The write, and the record of the pair. Without an entry the loop breaks.
    abbrev pub push_write : Linked → Option ℕ → Ring → Bool × Linked
    push_write s none r = (false, record s { ring = record { ring = r } })
    push_write s (some q) r = (
      true,
      record {
        ring = record { ring = filled sys (write_after s) (write_key s) r q };
        offset = add64 s.offset (size_of s);
        operations =
            s.operations
            ++ record { buffer = buffer_of s; offset = s.offset; completed_ops = 0 } ∷ [];
        inflight = add64 s.inflight 2;
      },
    )

    -- The read. Without an entry the loop breaks.
    abbrev pub push_pair : Linked → Option ℕ → Ring → Bool × Linked
    push_pair s none r = (false, record s { ring = record { ring = r } })
    push_pair s (some p) r =
        let (sqe, r') = get_sqe sys (filled sys (linked_read s) (read_key s) r p) in
        push_write s sqe r'

    abbrev pub may_queue : Linked → Bool
    may_queue s = ltb s.offset file_size && ltb s.inflight queue_depth

    abbrev pub queue_on : (Linked → Linked) → Bool × Linked → Linked
    queue_on again (true, s) = again s
    queue_on again (false, s) = s

    -- The loop that queues pairs, on fuel; each round adds two to `inflight`.
    unfoldable pub queue_pairs : ℕ → Linked → Linked
    queue_pairs zero s = s
    queue_pairs (suc fuel) s = elim (may_queue s) [
      | true ↦
          let (sqe, r) = get_sqe sys s.ring.ring in queue_on (queue_pairs fuel) (push_pair s sqe r)
      | false ↦ s
    ]

    abbrev pub submitted : Linked → StdResult ℕ Error × IoUring sys → Outcome Linked
    submitted s (ok _, u) = done (record s { ring = u })
    submitted s (err e, u) = fails e

    unfoldable pub submit_queued : Linked → Outcome Linked
    submit_queued s = if ltb 0 s.inflight then submitted s (Uring.submit sys s.ring) else done s

    -- A negative result is an error, save that of an entry whose link was broken.
    abbrev pub is_failure : ℤ → Bool
    is_failure result = is_neg result && not (int_eq result (neg_i32 (pos ecanceled)))

    unfoldable pub count_completion : ℤ → ℕ → Ring → Linked → Linked
    count_completion result user_data r s = record {
      ring = record { ring = r };
      offset = s.offset;
      operations = modify (bump (user_data % 2 == 0) result) s.operations (user_data / 2);
      inflight = sub64 s.inflight 1;
    }

    -- A round of `while let Some(cqe) = cq.peek_cqe()`. The guard is dropped at its end.
    abbrev pub peek_round : (Linked → Outcome Linked) → Linked → Option Cqe → Ring → Outcome Linked
    peek_round again s none r = done (record s { ring = record { ring = r } })
    peek_round again s (some c) r =
        let result = CqeOps.result sys r c in
        elim (is_failure result) [
          | true ↦ fails (io (from_raw_os_error (neg_i32 result)))
          | false ↦
              again (count_completion result (CqeOps.user_data sys r c) (CqeOps.drop sys r c) s)
        ]

    unfoldable pub process : ℕ → Linked → Outcome Linked
    process zero s = unfinished
    process (suc fuel) s =
        let (cqe, r) = peek_cqe sys s.ring.ring in peek_round (process fuel) s cqe r

    -- A round of the outer loop; `fuel` is that of its inner loop over the completions.
    unfoldable pub copy_round : ℕ → Linked → Outcome Linked
    copy_round fuel s = and_then (submit_queued (queue_pairs queue_depth s)) (process fuel)

    abbrev pub copying : Linked → Bool
    copying s = ltb s.offset file_size || ltb 0 s.inflight

    unfoldable pub copy_loop : ℕ → ℕ → Linked → Outcome Linked
    copy_loop zero peeks s = unfinished
    copy_loop (suc fuel) peeks s = elim (copying s) [
      | true ↦ and_then (copy_round peeks s) (copy_loop fuel peeks)
      | false ↦ done s
    ]

    unfoldable pub copy_file_linked : ℕ → ℕ → IoUring sys → Outcome Linked
    copy_file_linked fuel peeks u = copy_loop fuel peeks (begin u)
