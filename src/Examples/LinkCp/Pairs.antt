-- ===== src/Examples/LinkCp/Pairs.antt =====
-- examples/link-cp.rs: the loop that queues the pairs keeps the accounts, and puts a read on the ring
-- only with its write.
use liburing_rs.Base.{
  ℕ, zero, suc, ◌+◌, ◌-◌, ◌*◌, ◌≤◌, ◌≡◌, ◌≢◌, refl, ◌∙◌, inl, inr, true, false, Bool, Option, none,
  some, [], ◌∷◌, length, length-append, Bool-cases, arith, ap,
}
use liburing_rs.Base.Int.{ℤ}
use liburing_rs.Sys.{Sys}
use liburing_rs.Sys.Documented.{Documented}
use liburing_rs.Error.{submission_queue_full}
use liburing_rs.Queue.Submission.{get_sqe, get_sqe_or_err, ok_or, is_full, space_left}
use liburing_rs.Queue.Space.{Gets, get_sqe_or_err-Gets, space_left-add-length}
use liburing_rs.Queue.Fill.{filled, tagged, Fills, filled-Fills}
use liburing_rs.Uring.Load.{same_load, same_held}
use liburing_rs.Examples.LinkCp.Defs.{
  Linked, linked_read, write_after, read_key, write_key, push_write, push_pair, may_queue, queue_on,
  queue_pairs, copying,
}
use liburing_rs.Examples.LinkCp.Ledger.{Ledger, ring-Ledger, pair-Ledger}

module _ (sys : Sys) (doc : Documented sys) where
  open sys use {Ring, Sqe}
  open doc use {sq, cq, inflight}

  -- The number of entries of a ring is even and not 0: liburing rounds it up to a power of two.
  abbrev pub Even : Type 0
  Even = (r : Ring) → (m : ℕ) × (sys.ring_entries r ≡ 2 * m + 2)

  module _ (even : Even) (address : ℕ → ℕ) (ecanceled : ℕ) (infd outfd : ℤ) (n : ℕ) where
    -- What a pair adds to the completions that are still to be counted is less than what its block
    -- takes off.
    abbrev pub work : Linked sys → ℕ
    work s = 3 * (n - s.offset) + s.inflight

    -- From `s`, pairs were queued.
    pub record Queues (s t : Linked sys) : Type 0 where
      pub ledger : Ledger sys doc n t
      pub pairs : (m : ℕ) × (length (sq t.ring.ring) ≡ 2 * m)
      pub less : work t ≤ work s
      pub more : s.inflight ≤ t.inflight

    module _ (s : Linked sys) (v : Ledger sys doc n s)
        (pairs : (m : ℕ) × (length (sq s.ring.ring) ≡ 2 * m))
        (may : may_queue sys address ecanceled infd outfd n s ≡ true) where
      abbrev Pushes : Bool × Linked sys → Type 0
      Pushes (b, t) =
          Queues s t
          × (b ≡ false → sys.ring_entries s.ring.ring ≤ length (sq s.ring.ring))
          × (b ≡ true → 2 ≤ t.inflight)

      write-Pushes :
          (r1 : Ring) (t1 : Sqe)
          → Fills sys doc
              (linked_read sys address ecanceled infd outfd n s)
              s.ring.ring
              r1
              (read_key sys address ecanceled infd outfd n s)
              t1
          → (o : Option ℕ) (r : Ring) → Gets sys doc r1 (ok_or o submission_queue_full) r
          → Pushes (push_write sys address ecanceled infd outfd n s o r)
      unfolding is_full
      write-Pushes r1 t1 reads none r (Gets.full isfull _ _ _) =
          let (m, entries) = even s.ring.ring in
          let (k, queued) = pairs in
          let empty : space_left sys r1 ≡ 0 = ground (arith, isfull) in
          absurd (
            omega (
              arith,
              reads.space,
              entries,
              queued,
              empty,
              space_left-add-length sys doc s.ring.ring,
            ))
      write-Pushes r1 t1 reads (some q) r got =
          let prepare = write_after sys address ecanceled infd outfd n s in
          let key = write_key sys address ecanceled infd outfd n s in
          let writes = filled-Fills sys doc prepare key r1 r q got in
          let (ledger, on, more) =
            pair-Ledger sys doc address ecanceled infd outfd n s v may r1 _ t1 _ reads writes in
          (
            record {
              ledger = ledger;
              pairs = (
                pairs.0 + 1,
                omega (
                  arith,
                  pairs.1,
                  ap length reads.queue,
                  ap length writes.queue,
                  length-append (sq s.ring.ring) (t1 ∷ []),
                  length-append (sq r1) (tagged sys prepare key r q ∷ []),
                ),
              );
              less = omega (arith, on, more, ledger.within);
              more = omega (arith, more);
            },
            λ e. absurd (cc),
            λ e. omega (arith, more),
          )

      pair-Pushes :
          (o : Option ℕ) (r : Ring)
          → Gets sys doc s.ring.ring (ok_or o submission_queue_full) r
          → Pushes (push_pair sys address ecanceled infd outfd n s o r)
      unfolding get_sqe_or_err is_full
      pair-Pushes none r (Gets.full isfull queue done flight) = (
        record {
          ledger =
              ring-Ledger sys doc n s _ v (same_load sys doc queue done flight)
                (λ k. same_held sys doc k queue done flight);
          pairs = (pairs.0, ap length queue ∙ pairs.1);
          less = omega arith;
          more = omega arith;
        },
        λ e. ground (arith, isfull, space_left-add-length sys doc s.ring.ring),
        λ e. absurd (cc),
      )
      pair-Pushes (some p) r got =
          let prepare = linked_read sys address ecanceled infd outfd n s in
          let key = read_key sys address ecanceled infd outfd n s in
          write-Pushes _ _ (filled-Fills sys doc prepare key s.ring.ring r p got) _ _
            (get_sqe_or_err-Gets sys doc (filled sys prepare key r p))

    Queues-trans : {s t u : Linked sys} → Queues s t → Queues t u → Queues s u
    Queues-trans p q = record {
      ledger = q.ledger;
      pairs = q.pairs;
      less = omega (arith, p.less, q.less);
      more = omega (arith, p.more, q.more);
    }

    abbrev Continues : (Linked sys → Linked sys) → Type 0
    Continues again =
        (t : Linked sys)
        → Ledger sys doc n t
        → (m : ℕ) × (length (sq t.ring.ring) ≡ 2 * m)
        → Queues t (again t)

    queue_on-Queues :
        (again : Linked sys → Linked sys) (s : Linked sys) (x : Bool × Linked sys)
        → Continues again
        → Queues s x.1
        → Queues s (queue_on sys address ecanceled infd outfd n again x)
    queue_on-Queues again s (true, t) next q = Queues-trans q (next t q.ledger q.pairs)
    queue_on-Queues again s (false, t) next q = q

    abbrev pushed : Linked sys → Bool × Linked sys
    pushed s =
        push_pair sys address ecanceled infd outfd n s (get_sqe sys s.ring.ring).0
          (get_sqe sys s.ring.ring).1

    pushed-Pushes :
        (s : Linked sys) (v : Ledger sys doc n s)
        (pairs : (m : ℕ) × (length (sq s.ring.ring) ≡ 2 * m))
        (may : may_queue sys address ecanceled infd outfd n s ≡ true)
        → Pushes s v pairs may (pushed s)
    unfolding get_sqe_or_err
    pushed-Pushes s v pairs may =
        pair-Pushes s v pairs may _ _ (get_sqe_or_err-Gets sys doc s.ring.ring)

    pub queue_pairs-Queues :
        (fuel : ℕ) → Continues (queue_pairs sys address ecanceled infd outfd n fuel)
    unfolding queue_pairs
    queue_pairs-Queues zero s v pairs = record {
      ledger = v;
      pairs = pairs;
      less = omega arith;
      more = omega arith;
    }
    queue_pairs-Queues (suc fuel) s v pairs =
        elim (Bool-cases (may_queue sys address ecanceled infd outfd n s)) [
          | inl may ↦
              rw (may, queue_pairs)
                (queue_on-Queues (queue_pairs sys address ecanceled infd outfd n fuel) s (pushed s)
                  (queue_pairs-Queues fuel) (pushed-Pushes s v pairs may).0)
          | inr full ↦
              rw (full, queue_pairs)
                (record { ledger = v; pairs = pairs; less = omega arith; more = omega arith })
        ]

    queue_on_some :
        (fuel : ℕ) (s : Linked sys) (x : Bool × Linked sys)
        → Queues s x.1
        → (x.0 ≡ true → 2 ≤ x.1.inflight)
        → x.0 ≢ false
        → 1
          ≤ (queue_on sys address ecanceled infd outfd n
              (queue_pairs sys address ecanceled infd outfd n fuel)
              x).inflight
    queue_on_some fuel s (true, t) q two on =
        omega (arith, two refl, (queue_pairs-Queues fuel t q.ledger q.pairs).more)
    queue_on_some fuel s (false, t) q two on = absurd (on refl)

    -- From an empty submission queue, an unfinished copy has something in flight once it has queued.
    pub queue_pairs_some :
        (fuel : ℕ) (s : Linked sys)
        → Ledger sys doc n s
        → sq s.ring.ring ≡ []
        → copying sys address ecanceled infd outfd n s ≡ true
        → 1 ≤ (queue_pairs sys address ecanceled infd outfd n (suc fuel) s).inflight
    unfolding queue_pairs
    queue_pairs_some fuel s v none_queued go =
        elim (Bool-cases (may_queue sys address ecanceled infd outfd n s)) [
          | inl may ↦
              let pairs : (m : ℕ) × (length (sq s.ring.ring) ≡ 2 * m) =
                (0, ap length none_queued) in
              let (q, full, two) = pushed-Pushes s v pairs may in
              let (m, entries) = even s.ring.ring in
              rw (may, queue_pairs)
                (queue_on_some fuel s (pushed s) q two
                  (λ e. omega (arith, full e, entries, ap length none_queued)))
          | inr full ↦ rw (full, queue_pairs) (ground (arith, full, go))
        ]
