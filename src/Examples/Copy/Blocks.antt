-- ===== src/Examples/Copy/Blocks.antt =====
-- examples/io_uring-cp.rs: the loop that queues reads keeps the accounts.
use liburing_rs.Base.{
  ℕ, zero, suc, ◌+◌, ◌-◌, ◌≤◌, ◌<◌, ◌≡◌, refl, ap, inl, inr, Bool, true, false, Option, none, some,
  [], ◌∷◌, All-append, Bool-cases, arith,
}
use liburing_rs.Base.Int.{ℤ}
use liburing_rs.Sys.{Sys}
use liburing_rs.Queue.Submission.{get_sqe}
use liburing_rs.Examples.Words.{min}
use liburing_rs.Examples.Copy.Defs.{IoData, Copy, block_size, queue_depth}
use liburing_rs.Examples.Copy.Loop.{block, push_read, may_read, read_on, queue_reads}
use liburing_rs.Examples.Copy.Accounts.{
  sum_by-append, one_read, one_write, length_of, IsSound, Accounts, ring-Accounts,
}

module _ (sys : Sys) (address : ℕ → ℕ) (infd outfd : ℤ) where
  open sys use {Ring}

  min_lem : (a b : ℕ) → (min a b ≤ a) × (min a b ≤ b) × (1 ≤ a → 1 ≤ b → 1 ≤ min a b)
  min_lem a b = ground arith

  room_left :
      (s : Copy sys)
      → s.reads_in_flight + s.writes_in_flight ≤ queue_depth
      → may_read sys address infd outfd s ≡ true
      → (1 ≤ s.bytes_to_read) × (s.reads_in_flight + s.writes_in_flight < queue_depth)
  room_left s h e = ground arith

  push_read-Accounts :
      (n d : ℕ) (s : Copy sys) (p : Option ℕ) (r : Ring)
      → Accounts sys n d s
      → may_read sys address infd outfd s ≡ true
      → Accounts sys n d (push_read sys address infd outfd s p r).1
  push_read-Accounts n d s none r v e = ring-Accounts sys n d s _ v
  push_read-Accounts n d s (some p) r v e = record {
    small = v.small;
    covered = omega (arith, v.small, v.covered, small_block.0);
    reading =
        omega (arith, v.reading, sum_by-append one_read s.pending_operations (op ∷ []), v.depth);
    writing = omega (arith, v.writing, sum_by-append one_write s.pending_operations (op ∷ []));
    depth = omega (arith, v.depth, room.1);
    budget = omega (
      arith,
      v.budget,
      v.small,
      v.covered,
      small_block.0,
      sum_by-append length_of s.pending_operations (op ∷ []),
    );
    bounded = v.bounded;
    sound = All-append (IsSound n d) s.pending_operations (op ∷ []) v.sound (sound, tt);
  }
    where
      op : IoData
      op = block sys address infd outfd s

      room : (1 ≤ s.bytes_to_read) × (s.reads_in_flight + s.writes_in_flight < queue_depth)
      room = room_left s v.depth e

      small_block : (op.len ≤ s.bytes_to_read) × (1 ≤ op.len)
      small_block = let m = min_lem s.bytes_to_read block_size in (m.0, m.2 room.0 (omega arith))

      left : s.bytes_to_read ≡ n - s.offset
      left = omega (arith, v.covered)

      sound : IsSound n d op
      sound = record {
        reads = λ _. (ap (λ b. min b block_size) left, small_block.1, refl);
        empty = λ z. absurd (omega (arith, small_block.1, z));
      }

  read_on-Accounts :
      (n d : ℕ) (again : Copy sys → Copy sys) (x : Bool × Copy sys)
      → ((t : Copy sys) → Accounts sys n d t → Accounts sys n d (again t))
      → Accounts sys n d x.1
      → Accounts sys n d (read_on sys address infd outfd again x)
  read_on-Accounts n d again (true, t) h v = h t v
  read_on-Accounts n d again (false, t) h v = v

  pub queue_reads-Accounts :
      (fuel n d : ℕ) (s : Copy sys)
      → Accounts sys n d s
      → Accounts sys n d (queue_reads sys address infd outfd fuel s)
  unfolding queue_reads
  queue_reads-Accounts zero n d s v = v
  queue_reads-Accounts (suc fuel) n d s v = elim (Bool-cases (may_read sys address infd outfd s)) [
    | inl may ↦
        rw (may, queue_reads)
          (read_on-Accounts n d (queue_reads sys address infd outfd fuel)
            (push_read sys address infd outfd s (get_sqe sys s.ring.ring).0
              (get_sqe sys s.ring.ring).1)
            (queue_reads-Accounts fuel n d)
            (push_read-Accounts n d s (get_sqe sys s.ring.ring).0 (get_sqe sys s.ring.ring).1 v
              may))
    | inr full ↦ rw (full, queue_reads) v
  ]
