-- ===== src/Examples/Copy/Tests.antt =====
-- Tests of examples/io_uring-cp.rs, and the instances of its theorems, on the simulated ring.
use liburing_rs.Base.{ℕ, ◌+◌, ◌≤◌, ◌≡◌, refl, ◌≢◌, true, false, some, [], ◌∷◌, arith}
use liburing_rs.Base.Int.{ℤ, pos, negsuc, is_neg, as_usize}
use liburing_rs.Sys.{Sys}
use liburing_rs.Examples.Words.{min}
use liburing_rs.Examples.Outcome.{done, and_then, Good}
use liburing_rs.Error.{check_ret}
use liburing_rs.Ops.Read
use liburing_rs.Ops.Write
use liburing_rs.Ops.Traits.{set_user_data}
use liburing_rs.Queue.Cqe
use liburing_rs.Queue.Submission.{get_sqe}
use liburing_rs.Queue.Completion.{peek_cqe}
use liburing_rs.Uring
use liburing_rs.Uring.{IoUring}
use liburing_rs.Examples.Copy.Defs.{
  IoData, take_op, Copy, begin, submit_pending, drain, finish_writes,
}
use liburing_rs.Examples.Copy.Loop.{
  queue_reads, complete, process, copy_round, copy_loop, copy_file,
}
use liburing_rs.Examples.Copy.Accounts.{cap, Accounts}
use liburing_rs.Examples.Copy.Completions.{short_write_counts_whole}
use liburing_rs.Examples.Copy.Short.{short_read_hangs}
use liburing_rs.Examples.Copy.Ending.{Honest, IsFinished, copy_loop-IsFinished, copy_file_lem}
use liburing_rs.Sim.{sim, oldest, empty_ring}

-- A file of 10 bytes, on a ring that never shows more of them than there are.
abbrev cut : ℤ → ℕ → ℤ
cut (pos m) b = pos (min m b)
cut (negsuc m) b = negsuc m

abbrev fair : Sys
fair = record sim {
  cqe_at = λ r p. let c = oldest r.done in record c { res = cut c.res (cap 10 c.user_data) };
}

cut_fits : (z : ℤ) (b : ℕ) → is_neg (cut z b) ≡ false → as_usize (cut z b) ≤ b
cut_fits (pos m) b h = ground arith
cut_fits (negsuc m) b h = cc

fair-Honest : Honest fair 10
fair-Honest r p h = cut_fits (oldest r.done).res (cap 10 (oldest r.done).user_data) h

abbrev place : ℕ → ℕ
place offset = 4096 + offset

abbrev uring : IoUring fair
uring = record { ring = empty_ring }

-- With no short read, the copy ends.
copy_file_ends : copy_file fair place (pos 3) (pos 4) 5 5 10 uring ≡ done empty_ring
unfolding copy_file copy_loop copy_round submit_pending drain finish_writes queue_reads complete
    process take_op get_sqe set_user_data Read.prepare Read.from_slice Write.prepare
    Write.from_slice Uring.submit check_ret peek_cqe Cqe.user_data Cqe.result Cqe.drop
copy_file_ends = refl

copy_loop-IsFinished_example :
    Good (IsFinished fair 10) (copy_loop fair place (pos 3) (pos 4) 5 5 (begin fair 10 uring))
copy_loop-IsFinished_example =
    copy_loop-IsFinished fair place (pos 3) (pos 4) 10 fair-Honest 5 5 uring (omega arith)

copy_file_lem_example :
    copy_file fair place (pos 3) (pos 4) 5 5 10 uring
    ≡ and_then
        (copy_loop fair place (pos 3) (pos 4) 5 5 (begin fair 10 uring))
        (λ s. done s.ring.ring)
copy_file_lem_example =
    copy_file_lem fair place (pos 3) (pos 4) 10 fair-Honest 5 5 uring (omega arith)

-- The read of the 10 bytes is in flight.
abbrev whole : IoData
whole = record { buffer = record { as_ptr = 4096; len = 10 }; offset = 0; len = 10; is_read = true }

abbrev reading : Copy fair
reading = record {
  ring = uring;
  offset = 10;
  pending_operations = whole ∷ [];
  reads_in_flight = 1;
  writes_in_flight = 0;
  bytes_to_read = 0;
  bytes_to_write = 10;
}

reading-Accounts : Accounts fair 10 0 reading
reading-Accounts = record {
  small = omega arith;
  covered = refl;
  reading = refl;
  writing = refl;
  depth = omega arith;
  budget = refl;
  bounded = omega arith;
  sound = (
    record { reads = λ e. (refl, omega arith, refl); empty = λ e. absurd (omega (arith, e)) },
    tt,
  );
}

-- It gives 4.
abbrev shortened : Copy fair
shortened = record reading {
  ring = record {
    ring = record empty_ring { done = record { user_data = 0; res = pos 4; flags = 0 } ∷ [] };
  };
  pending_operations = record whole { len = 4; is_read = false } ∷ [];
  reads_in_flight = 0;
  writes_in_flight = 1;
}

short_read : process fair place (pos 3) (pos 4) ((pos 4, 0) ∷ []) reading ≡ done shortened
unfolding process complete take_op get_sqe set_user_data Write.prepare Write.from_slice Uring.submit
    check_ret
short_read = refl

take_whole : take_op 0 reading.pending_operations ≡ some (whole, [])
unfolding take_op
take_whole = refl

short_read_hangs_example : copy_loop fair place (pos 3) (pos 4) 50 50 shortened ≢ done shortened
short_read_hangs_example =
    short_read_hangs fair place (pos 3) (pos 4) 10 fair-Honest 0 0 (pos 4) [] reading shortened
      reading-Accounts refl take_whole refl (omega arith) tt short_read 50 50 shortened

take_shortened :
    take_op 0 shortened.pending_operations ≡ some (record whole { len = 4; is_read = false }, [])
unfolding take_op
take_shortened = refl

-- The write of those 4 bytes comes back with 1 of them.
short_write_counts_whole_example :
    (t : Copy fair) × (complete fair place (pos 3) (pos 4) (pos 1, 0) shortened ≡ done t)
    × (t.bytes_to_write + 4 ≡ 10)
    × (t.writes_in_flight + 1 ≡ 1)
    × (t.bytes_to_read ≡ shortened.bytes_to_read)
    × (t.pending_operations ≡ [])
    × (t.ring ≡ shortened.ring)
short_write_counts_whole_example =
    short_write_counts_whole fair place (pos 3) (pos 4) 0 1 shortened take_shortened refl
      (omega arith) (omega arith) (omega arith) (omega arith) (omega arith)
