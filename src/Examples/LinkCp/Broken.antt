-- ===== src/Examples/LinkCp/Broken.antt =====
-- examples/link-cp.rs: a write that was canceled, and a read without its write.
use liburing_rs.Base.{
  ℕ, suc, ◌+◌, ◌%◌, ◌≤◌, ◌≡◌, refl, true, false, Option, none, some, ◌==◌, arith, ap,
}
use liburing_rs.Base.Int.{ℤ, pos, neg_i32}
use liburing_rs.Sys.{Sys}
use liburing_rs.Sys.Documented.{Documented}
use liburing_rs.Error.{submission_queue_full}
use liburing_rs.Queue.Cqe as CqeOps
use liburing_rs.Queue.Cqe.{Cqe}
use liburing_rs.Queue.Submission.{get_sqe, get_sqe_or_err, ok_or, is_full, space_left}
use liburing_rs.Queue.Completion.{peek_cqe}
use liburing_rs.Queue.Space.{Gets, handed, get_sqe_or_err-Gets}
use liburing_rs.Queue.Fill.{filled, Fills, filled-Fills}
use liburing_rs.Uring.Load.{load, filled_load, same_load}
use liburing_rs.Examples.LinkCp.Defs.{
  Linked, linked_read, read_key, push_write, push_pair, may_queue, queue_on, queue_pairs,
  is_failure, count_completion, peek_round, process,
}

module _ (sys : Sys) (address : ℕ → ℕ) (ecanceled : ℕ) (infd outfd : ℤ) (n : ℕ) where
  open sys use {Ring, Sqe}

  -- The code of a canceled request is not taken for an error.
  canceled_passes :
      1 ≤ ecanceled
      → is_failure sys address ecanceled infd outfd n (neg_i32 (pos ecanceled)) ≡ false
  canceled_passes h = ground arith

  same_write :
      (s : Linked sys) (r : Ring) (a b : ℤ) (ud : ℕ)
      → (ud % 2 == 0) ≡ false
      → count_completion sys address ecanceled infd outfd n a ud r s
        ≡ count_completion sys address ecanceled infd outfd n b ud r s
  unfolding count_completion
  same_write s r a b ud odd = rw odd refl

  -- When the oldest completion is that of a write, an odd user data, and says that the write was
  -- canceled, as it is after a short read, the loop goes on exactly as it would after a write of any
  -- number of bytes: nothing in the state tells that the block was not written.
  pub canceled_write_counts :
      (fuel m : ℕ) (s : Linked sys) (c : Cqe)
      → let (o, r) = peek_cqe sys s.ring.ring in
        1 ≤ ecanceled
        → o ≡ some c
        → CqeOps.result sys r c ≡ neg_i32 (pos ecanceled)
        → CqeOps.user_data sys r c % 2 ≡ 1
        → process sys address ecanceled infd outfd n (suc fuel) s
          ≡ process sys address ecanceled infd outfd n fuel (
              count_completion sys address ecanceled infd outfd n
                (pos m)
                (CqeOps.user_data sys r c)
                (CqeOps.drop sys r c)
                s)
  unfolding process
  canceled_write_counts fuel m s c positive e code odd =
      rw (e, process)
        (rw (code, canceled_passes positive, peek_round)
          (ap (process sys address ecanceled infd outfd n fuel) (
            same_write s (CqeOps.drop sys (peek_cqe sys s.ring.ring).1 c)
              (CqeOps.result sys (peek_cqe sys s.ring.ring).1 c) (pos m)
              (CqeOps.user_data sys (peek_cqe sys s.ring.ring).1 c) (ground arith))))

  module _ (doc : Documented sys) where
    open doc use {sq}

    -- A read came onto the ring, and nothing in the state says so.
    abbrev Orphans : Linked sys → Linked sys → Type 0
    Orphans s t =
        (t.inflight ≡ s.inflight)
        × (t.operations ≡ s.operations)
        × (t.offset ≡ s.offset)
        × (load sys doc t.ring.ring ≡ load sys doc s.ring.ring + 1)

    module _ (s : Linked sys) (last : space_left sys s.ring.ring ≡ 1) where
      write-Orphans :
          (fuel : ℕ) (r1 : Ring) (t1 : Sqe)
          → Fills sys doc
              (linked_read sys address ecanceled infd outfd n s)
              s.ring.ring
              r1
              (read_key sys address ecanceled infd outfd n s)
              t1
          → (o : Option ℕ) (r : Ring) → Gets sys doc r1 (ok_or o submission_queue_full) r
          → Orphans s (
              queue_on sys address ecanceled infd outfd n
                (queue_pairs sys address ecanceled infd outfd n fuel)
                (push_write sys address ecanceled infd outfd n s o r))
      unfolding is_full
      write-Orphans fuel r1 t1 reads none r (Gets.full isfull queue done flight) = (
        refl,
        refl,
        refl,
        omega (arith, same_load sys doc queue done flight, filled_load sys doc reads),
      )
      write-Orphans fuel r1 t1 reads (some q) r (handed _ room _) =
          absurd (ground (arith, room, reads.space, last))

      pair-Orphans :
          (fuel : ℕ) (o : Option ℕ) (r : Ring)
          → Gets sys doc s.ring.ring (ok_or o submission_queue_full) r
          → Orphans s (
              queue_on sys address ecanceled infd outfd n
                (queue_pairs sys address ecanceled infd outfd n fuel)
                (push_pair sys address ecanceled infd outfd n s o r))
      unfolding is_full get_sqe_or_err
      pair-Orphans fuel none r (Gets.full isfull _ _ _) = absurd (ground (arith, isfull, last))
      pair-Orphans fuel (some p) r got =
          let prepare = linked_read sys address ecanceled infd outfd n s in
          let key = read_key sys address ecanceled infd outfd n s in
          write-Orphans fuel _ _ (filled-Fills sys doc prepare key s.ring.ring r p got) _ _
            (get_sqe_or_err-Gets sys doc (filled sys prepare key r p))

      -- Where one entry is left and a block may be queued, the loop leaves a read on the ring
      -- without its write: the ring holds one entry more, and the offset, the operations and
      -- `inflight` are as before, so the buffer that the read fills has no owner.
      pub lone_entry-Orphans :
          (fuel : ℕ)
          → may_queue sys address ecanceled infd outfd n s ≡ true
          → Orphans s (queue_pairs sys address ecanceled infd outfd n (suc fuel) s)
      unfolding queue_pairs get_sqe_or_err
      lone_entry-Orphans fuel may =
          rw (may, queue_pairs)
            (pair-Orphans fuel (get_sqe sys s.ring.ring).0 (get_sqe sys s.ring.ring).1
              (get_sqe_or_err-Gets sys doc s.ring.ring))
