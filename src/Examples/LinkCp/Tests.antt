-- ===== src/Examples/LinkCp/Tests.antt =====
-- Tests of examples/link-cp.rs, and the instances of its theorems, on the simulated ring.
use liburing_rs.Base.{◌⊎◌, ℕ, ◌+◌, ◌%◌, ◌≡◌, refl, some, [], ◌∷◌, arith}
use liburing_rs.Base.Int.{ℤ, pos, neg_i32}
use liburing_rs.Sys.{IoUringCqe}
use liburing_rs.Error.{check_ret}
use liburing_rs.Flags.{bits}
use liburing_rs.Ops.Read
use liburing_rs.Ops.Write
use liburing_rs.Ops.Traits.{set_user_data, set_flags}
use liburing_rs.Queue.Cqe as CqeOps
use liburing_rs.Queue.Cqe.{Cqe}
use liburing_rs.Queue.Submission.{get_sqe, space_left}
use liburing_rs.Queue.Completion.{peek_cqe}
use liburing_rs.Uring
use liburing_rs.Uring.{IoUring}
use liburing_rs.Uring.Load.{load}
use liburing_rs.Examples.Outcome.{done, Ensures}
use liburing_rs.Examples.LinkCp.Defs.{
  begin, Linked, modify, queue_pairs, submit_queued, count_completion, process, copy_round,
  copy_loop, copy_file_linked,
}
use liburing_rs.Sim.Faultless.{eager_faults}
use liburing_rs.Examples.LinkCp.Total.{idle_rounds, IsComplete, copy_file_linked_total}
use liburing_rs.Examples.LinkCp.Broken.{canceled_write_counts, lone_entry-Orphans}
use liburing_rs.Sim.{SimSqe, Slots, blank, sim, sim_documented, empty_ring}
use liburing_rs.Sim.Eager.{eager, eager_documented}

abbrev place : ℕ → ℕ
place offset = 4096 + offset

abbrev whole : SimSqe → ℤ
whole s = pos s.len

abbrev idle : IoUring (eager whole)
idle = record { ring = empty_ring }

-- A file of 10 bytes: one pair, and both its completions.
copy_ends :
    copy_file_linked (eager whole) place 125 (pos 3) (pos 4) 10 31 66 idle
    ≡ done (record {
      ring = idle;
      offset = 10;
      operations =
          record { buffer = record { as_ptr = 4096; len = 10 }; offset = 0; completed_ops = 2 }
          ∷ [];
      inflight = 0;
    })
unfolding copy_file_linked copy_loop copy_round queue_pairs submit_queued process count_completion
    modify get_sqe set_user_data set_flags bits Read.prepare Read.from_slice Write.prepare
    Write.from_slice Uring.submit check_ret peek_cqe CqeOps.user_data CqeOps.result CqeOps.drop
copy_ends = refl

-- Every round finds a completion.
never_idle :
    idle_rounds
      (eager whole)
      (eager_documented whole)
      (λ r. (0, refl))
      ⊥
      (eager_faults whole).partial
      place
      125
      (pos 3)
      (pos 4)
      10
      31
      66
      (begin (eager whole) idle)
    ≡ 0
unfolding idle_rounds copy_round queue_pairs submit_queued process count_completion get_sqe
    set_user_data set_flags bits Read.prepare Read.from_slice Write.prepare Write.from_slice
    Uring.submit check_ret peek_cqe CqeOps.result CqeOps.user_data CqeOps.drop
never_idle = refl

copy_file_linked_total_example :
    ⊥
    ⊎ Ensures
        (IsComplete (eager whole) (eager_documented whole) 10)
        Unit
        (copy_file_linked (eager whole) place 125 (pos 3) (pos 4) 10 31 66 idle)
copy_file_linked_total_example =
    copy_file_linked_total (eager whole) (eager_documented whole) (λ r. (0, refl)) ⊥
      (eager_faults whole).partial place 125 (pos 3) (pos 4) 10 31 66 idle (omega arith)
      (record { queue = refl; done = refl; flight = refl }) (omega (arith, never_idle))
      (omega arith)

-- A write of the first pair that was canceled; ECANCELED is 125.
abbrev canceled : IoUringCqe
canceled = record { user_data = 1; res = neg_i32 (pos 125); flags = 0 }

abbrev half : Linked sim
half = record {
  ring = record { ring = record empty_ring { done = canceled ∷ [] } };
  offset = 10;
  operations =
      record { buffer = record { as_ptr = 4096; len = 4 }; offset = 0; completed_ops = 1 } ∷ [];
  inflight = 1;
}

peeks : (peek_cqe sim half.ring.ring).0 ≡ some (record { cqe = 1 })
unfolding peek_cqe
peeks = refl

code : CqeOps.result sim (peek_cqe sim half.ring.ring).1 (record { cqe = 1 }) ≡ neg_i32 (pos 125)
unfolding CqeOps.result peek_cqe
code = refl

odd : CqeOps.user_data sim (peek_cqe sim half.ring.ring).1 (record { cqe = 1 }) % 2 ≡ 1
unfolding CqeOps.user_data peek_cqe
odd = refl

abbrev shown : Cqe
shown = record { cqe = 1 }

canceled_write_counts_example :
    process sim place 125 (pos 3) (pos 4) 10 2 half
    ≡ process sim place 125 (pos 3) (pos 4) 10 1 (
        count_completion sim place 125
          (pos 3)
          (pos 4)
          10
          (pos 4)
          (CqeOps.user_data sim (peek_cqe sim half.ring.ring).1 shown)
          (CqeOps.drop sim (peek_cqe sim half.ring.ring).1 shown)
          half)
canceled_write_counts_example =
    canceled_write_counts sim place 125 (pos 3) (pos 4) 10 1 4 half shown (omega arith) peeks code
      odd

-- One of the two slots is taken.
abbrev cramped : Linked sim
cramped = record {
  ring = record { ring = record empty_ring { slots = Slots.one blank } };
  offset = 0;
  operations = [];
  inflight = 0;
}

one_left : space_left sim cramped.ring.ring ≡ 1
unfolding space_left
one_left = refl

lone_entry-Orphans_example :
    let t = queue_pairs sim place 125 (pos 3) (pos 4) 10 64 cramped in
    (t.inflight ≡ cramped.inflight)
    × (t.operations ≡ cramped.operations)
    × (t.offset ≡ cramped.offset)
    × (load sim sim_documented t.ring.ring ≡ load sim sim_documented cramped.ring.ring + 1)
lone_entry-Orphans_example =
    lone_entry-Orphans sim place 125 (pos 3) (pos 4) 10 sim_documented cramped one_left 63 refl
