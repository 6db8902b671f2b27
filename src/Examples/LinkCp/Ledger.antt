-- ===== src/Examples/LinkCp/Ledger.antt =====
-- examples/link-cp.rs: the accounts of a linked copy. Each pair in `operations` has two completions,
-- and each of those is still on the ring or counted in `completed_ops`.
use liburing_rs.Base.{
  ℕ, ◌+◌, ◌*◌, ◌/◌, ◌%◌, ◌^◌, ◌≤◌, ◌<◌, ◌≡◌, refl, true, List, [], ◌∷◌, ◌++◌, length, length-append,
  arith, ltb, ◌==◌, if◌then◌else◌,
}
use liburing_rs.Base.Int.{ℤ}
use liburing_rs.Sys.{Sys, IoUringCqe}
use liburing_rs.Sys.Documented.{Documented}
use liburing_rs.Sys.Progress.{held, IsQuiet}
use liburing_rs.Queue.Cqe as CqeOps
use liburing_rs.Queue.Cqe.{Cqe}
use liburing_rs.Queue.Fill.{Fills}
use liburing_rs.Queue.Delivery.{Keeps, IsGuard}
use liburing_rs.Uring.{IoUring}
use liburing_rs.Uring.Load.{load, filled_load, filled_held, read_load, read_held}
use liburing_rs.Examples.Words.{add64}
use liburing_rs.Examples.LinkCp.Defs.{
  IoData, bump, Linked, begin, queue_depth, size_of, read_key, write_key, buffer_of, linked_read,
  write_after, may_queue, count_completion,
}
use liburing_rs.Examples.LinkCp.Counting.{
  completed, completed_push, length-modify, completed-modify, count_one, push_two,
}

module _ (sys : Sys) (doc : Documented sys) where
  open sys use {Ring, Sqe}

  abbrev pub both : ℕ → Ring → ℕ
  both i r = held sys doc (2 * i) r + held sys doc (2 * i + 1) r

  pub record Ledger (n : ℕ) (s : Linked sys) : Type 0 where
    pub small : n < 2 ^ 63
    pub within : s.offset ≤ n
    pub counted : length s.operations ≤ s.offset
    pub depth : s.inflight ≤ 65
    pub total : load sys doc s.ring.ring ≡ s.inflight
    pub own :
        (i : ℕ)
        → both i s.ring.ring + completed s.operations i
          ≡ (if ltb i (length s.operations) then 2 else 0)

  pub begin-Ledger :
      (n : ℕ) (u : IoUring sys) → n < 2 ^ 63 → IsQuiet sys doc u.ring → Ledger n (begin sys u)
  begin-Ledger n u small q = record {
    small = small;
    within = omega arith;
    counted = omega arith;
    depth = omega arith;
    total = rw (q.queue, q.flight, q.done) refl;
    own = λ i. rw (q.queue, q.flight, q.done) (ground arith);
  }

  pub ring-Ledger :
      (n : ℕ) (s : Linked sys) (u : IoUring sys)
      → Ledger n s
      → load sys doc u.ring ≡ load sys doc s.ring.ring
      → ((k : ℕ) → held sys doc k u.ring ≡ held sys doc k s.ring.ring)
      → Ledger n (record s { ring = u })
  ring-Ledger n s u v all each = record {
    small = v.small;
    within = v.within;
    counted = v.counted;
    depth = v.depth;
    total = omega (arith, all, v.total);
    own = λ i. omega (arith, v.own i, each (2 * i), each (2 * i + 1));
  }

  module _ (address : ℕ → ℕ) (ecanceled : ℕ) (infd outfd : ℤ) (n : ℕ) (s : Linked sys)
      (v : Ledger n s) where
    -- The block is not empty, and it lies in the file.
    pub block_fits :
        may_queue sys address ecanceled infd outfd n s ≡ true
        → (1 ≤ size_of sys address ecanceled infd outfd n s)
          × (s.offset + size_of sys address ecanceled infd outfd n s ≤ n)
          × (s.inflight < queue_depth)
    block_fits h = ground (arith, v.small, v.within)

  pub count-Ledger :
      (n : ℕ) (s : Linked sys) (r : Ring) (result : ℤ) (c : Cqe) (x : IoUringCqe)
      (rest : List IoUringCqe) (address : ℕ → ℕ) (ecanceled : ℕ) (infd outfd : ℤ)
      → Ledger n s
      → Keeps sys doc s.ring.ring r
      → IsGuard sys doc r c x rest
      → let t =
          count_completion sys address ecanceled infd outfd n result
            (CqeOps.user_data sys r c)
            (CqeOps.drop sys r c)
            s in
        Ledger n t
        × (t.inflight + 1 ≡ s.inflight)
        × (t.offset ≡ s.offset)
        × (t.ring.ring ≡ CqeOps.drop sys r c)
  unfolding count_completion
  count-Ledger n s r result c x rest address ecanceled infd outfd v keeps g = (
    record {
      small = v.small;
      within = v.within;
      counted = omega (arith, v.counted, length-modify change s.operations (ud / 2));
      depth = omega (arith, v.depth, v.total, read);
      total = omega (arith, v.depth, v.total, read);
      own = λ i.
          let counted =
            count_one (held sys doc (2 * i) s.ring.ring) (held sys doc (2 * i + 1) s.ring.ring)
              (held sys doc (2 * i) (CqeOps.drop sys r c))
              (held sys doc (2 * i + 1) (CqeOps.drop sys r c)) (completed s.operations i) ud i
              (length s.operations) (read_held sys doc s.ring.ring r c x rest keeps g (2 * i))
              (read_held sys doc s.ring.ring r c x rest keeps g (2 * i + 1)) (v.own i) in
          rw
            (
              completed-modify (ud % 2 == 0) result s.operations (ud / 2) i,
              length-modify change s.operations (ud / 2),
            )
            counted;
    },
    omega (arith, v.depth, v.total, read),
    refl,
    refl,
  )
    where
      ud : ℕ
      ud = CqeOps.user_data sys r c

      change : IoData → IoData
      change = bump (ud % 2 == 0) result

      read : load sys doc (CqeOps.drop sys r c) + 1 ≡ load sys doc s.ring.ring
      read = read_load sys doc s.ring.ring r c x rest keeps g

  module _ (address : ℕ → ℕ) (ecanceled : ℕ) (infd outfd : ℤ) (n : ℕ) (s : Linked sys)
      (v : Ledger n s) (h : may_queue sys address ecanceled infd outfd n s ≡ true) (r1 r2 : Ring)
      (t1 t2 : Sqe)
      (reads : Fills sys doc
        (linked_read sys address ecanceled infd outfd n s)
        s.ring.ring
        r1
        (read_key sys address ecanceled infd outfd n s)
        t1)
      (writes : Fills sys doc
        (write_after sys address ecanceled infd outfd n s)
        r1
        r2
        (write_key sys address ecanceled infd outfd n s)
        t2) where
    abbrev pair : IoData
    pair = record {
      buffer = buffer_of sys address ecanceled infd outfd n s;
      offset = s.offset;
      completed_ops = 0;
    }

    abbrev pushed : Linked sys
    pushed = record {
      ring = record { ring = r2 };
      offset = add64 s.offset (size_of sys address ecanceled infd outfd n s);
      operations = s.operations ++ pair ∷ [];
      inflight = add64 s.inflight 2;
    }

    pub pair-Ledger :
        Ledger n pushed × (s.offset < pushed.offset) × (pushed.inflight ≡ s.inflight + 2)
    pair-Ledger = (
      record {
        small = v.small;
        within = omega (arith, moved, fits.1);
        counted = omega (arith, moved, fits.0, v.counted, longer);
        depth = omega (arith, more, fits.2);
        total = omega (arith, more, v.total, filled_load sys doc reads, filled_load sys doc writes);
        own = λ i.
            rw (completed_push s.operations pair i refl, longer)
              (push_two (held sys doc (2 * i) s.ring.ring) (held sys doc (2 * i + 1) s.ring.ring)
                (held sys doc (2 * i) r2) (held sys doc (2 * i + 1) r2) (completed s.operations i) i
                (length s.operations) (omega (arith, v.counted, v.within, v.small))
                (omega
                  (arith, filled_held sys doc reads (2 * i), filled_held sys doc writes (2 * i)))
                (omega (
                  arith,
                  filled_held sys doc reads (2 * i + 1),
                  filled_held sys doc writes (2 * i + 1),
                ))
                (v.own i));
      },
      omega (arith, moved, fits.0),
      more,
    )
      where
        fits :
            (1 ≤ size_of sys address ecanceled infd outfd n s)
            × (s.offset + size_of sys address ecanceled infd outfd n s ≤ n)
            × (s.inflight < queue_depth)
        fits = block_fits address ecanceled infd outfd n s v h

        moved : pushed.offset ≡ s.offset + size_of sys address ecanceled infd outfd n s
        moved = omega (arith, fits.1, v.small)

        more : add64 s.inflight 2 ≡ s.inflight + 2
        more = omega (arith, fits.2)

        longer : length pushed.operations ≡ length s.operations + 1
        longer = length-append s.operations (pair ∷ [])
