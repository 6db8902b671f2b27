-- ===== src/Examples/Copy/Ending.antt =====
-- examples/io_uring-cp.rs: when a copy ends, and that it does not end after a short read.
use liburing_rs.Base.{
  ℕ, zero, suc, ◌^◌, ◌≤◌, ◌<◌, ◌≡◌, refl, ap, ◌∙◌, subst, inl, inr, Bool, false, ◌||◌, Option, none,
  some, some-inj, List, [], ◌∷◌, All, All-append, ltb, Bool-cases, arith,
}
use liburing_rs.Base.Int.{ℤ, is_neg, as_usize}
use liburing_rs.Examples.Outcome.{
  Outcome, done, fails, panics, unfinished, and_then, Good, Good-mono, and_then-Good,
}
use liburing_rs.Sys.{Sys}
use liburing_rs.Queue.Cqe as CqeOps
use liburing_rs.Queue.Cqe.{Cqe}
use liburing_rs.Queue.Completion.{peek_cqe}
use liburing_rs.Uring.{IoUring}
use liburing_rs.Examples.Copy.Defs.{
  IoData, Copy, begin, queue_depth, submit_pending, drain_round, drain, finish_writes,
}
use liburing_rs.Examples.Copy.Loop.{
  queue_reads, process_drained, copy_round, copying, copy_loop, copy_file,
}
use liburing_rs.Examples.Copy.Accounts.{
  sum_by, one_read, one_write, length_of, cap, IsSound, Accounts, begin-Accounts, ring-Accounts,
}
use liburing_rs.Examples.Copy.Blocks.{queue_reads-Accounts}
use liburing_rs.Examples.Copy.Outcomes.{Grows, submit_pending-Good}
use liburing_rs.Examples.Copy.Completions.{Fits, process-Good}

nothing_pending :
    (n : ℕ) (ops : List IoData) → All (IsSound n 0) ops → sum_by length_of ops ≡ 0 → ops ≡ []
nothing_pending n [] h e = refl
nothing_pending n (op ∷ ops) h e = absurd (omega (arith, h.0.empty (omega (arith, e))))

module _ (sys : Sys) where
  -- A transfer gives at most the bytes that were asked for: those of its block.
  abbrev pub Honest : ℕ → Type 0
  Honest n =
      (r : sys.Ring) (p : ℕ)
      → is_neg (sys.cqe_at r p).res ≡ false
      → as_usize (sys.cqe_at r p).res ≤ cap n (sys.cqe_at r p).user_data

  -- Every block is read and written, and nothing is in flight.
  pub record IsFinished (n : ℕ) (s : Copy sys) : Type 0 where
    pub pending : s.pending_operations ≡ []
    pub reads : s.reads_in_flight ≡ 0
    pub writes : s.writes_in_flight ≡ 0
    pub offset : s.offset ≡ n
    pub unread : s.bytes_to_read ≡ 0
    pub unwritten : s.bytes_to_write ≡ 0

  drain_round-Fits :
      (n : ℕ) (again : sys.Ring → List (ℤ × ℕ) → Option (List (ℤ × ℕ) × sys.Ring))
      (results : List (ℤ × ℕ)) (o : Option Cqe) (r : sys.Ring) {x : List (ℤ × ℕ) × sys.Ring}
      → Honest n
      → ((r' : sys.Ring) (more : List (ℤ × ℕ))
          → All (Fits n) more
          → again r' more ≡ some x
          → All (Fits n) x.0)
      → All (Fits n) results
      → drain_round sys again results o r ≡ some x
      → All (Fits n) x.0
  unfolding CqeOps.result CqeOps.user_data
  drain_round-Fits n again results none r honest h fits e =
      subst (λ x. All (Fits n) x.0) (some-inj e) fits
  drain_round-Fits n again results (some c) r honest h fits e =
      h (CqeOps.drop sys r c) _ (All-append (Fits n) results _ fits (honest r c.cqe, tt)) e

  drain-Fits :
      (n fuel : ℕ) (r : sys.Ring) (results : List (ℤ × ℕ)) {x : List (ℤ × ℕ) × sys.Ring}
      → Honest n
      → All (Fits n) results
      → drain sys fuel r results ≡ some x
      → All (Fits n) x.0
  unfolding drain
  drain-Fits n zero r results honest fits e = cc
  drain-Fits n (suc fuel) r results honest fits e =
      drain_round-Fits n (drain sys fuel) results (peek_cqe sys r).0 (peek_cqe sys r).1 honest
        (λ r' more f e'. drain-Fits n fuel r' more honest f e') fits e

  pub stopped :
      (n d : ℕ) (s : Copy sys) (b : Bool)
      → b ≡ false
      → Accounts sys n d s
      → b ≡ (ltb 0 s.bytes_to_read || ltb 0 s.bytes_to_write)
      → (d ≡ 0) × (s.bytes_to_read ≡ 0) × (s.bytes_to_write ≡ 0)
  stopped n d s b e v q = ground (arith, v.budget)

  module _ (address : ℕ → ℕ) (infd outfd : ℤ) (n : ℕ) (honest : Honest n) where
    drained-Good :
        (d : ℕ) (t : Copy sys) (o : Option (List (ℤ × ℕ) × sys.Ring))
        → Accounts sys n d t
        → ((x : List (ℤ × ℕ) × sys.Ring) → o ≡ some x → All (Fits n) x.0)
        → Good (Grows sys n d) (process_drained sys address infd outfd t o)
    drained-Good d t none v h = tt
    drained-Good d t (some (cs, r)) v h =
        process-Good sys address infd outfd n d cs _ (ring-Accounts sys n d t _ v) (h (cs, r) refl)

    round-Good :
        (fuel d : ℕ) (s : Copy sys)
        → Accounts sys n d s
        → Good (Grows sys n d) (copy_round sys address infd outfd fuel s)
    unfolding copy_round
    round-Good fuel d s v =
        let t = queue_reads sys address infd outfd queue_depth s in
        and_then-Good (Accounts sys n d) (Grows sys n d) (submit_pending sys t) _
          (submit_pending-Good sys n d t
            (queue_reads-Accounts sys address infd outfd queue_depth n d s v))
          (λ t w.
            drained-Good d t (drain sys fuel t.ring.ring []) w
              (λ x e. drain-Fits n fuel t.ring.ring [] honest tt e))

    abbrev pub Stops : ℕ → Copy sys → Type 0
    Stops d t = Grows sys n d t × (copying sys address infd outfd t ≡ false)

    pub loop-Good :
        (fuel drained d : ℕ) (s : Copy sys)
        → Accounts sys n d s
        → Good (Stops d) (copy_loop sys address infd outfd fuel drained s)
    unfolding copy_loop
    loop-Good zero drained d s v = tt
    loop-Good (suc fuel) drained d s v = elim (Bool-cases (copying sys address infd outfd s)) [
      | inl more ↦
          rw (more, copy_loop)
            (and_then-Good (Grows sys n d) (Stops d) (copy_round sys address infd outfd drained s) _
              (round-Good drained d s v)
              (λ t (e, le, w).
                Good-mono (Stops e) (Stops d) (copy_loop sys address infd outfd fuel drained t)
                  (λ a ((e', le', w'), q). ((e', omega arith, w'), q))
                  (loop-Good fuel drained e t w)))
      | inr over ↦ rw (over, copy_loop) ((d, omega arith, v), over)
    ]

    finished : (t : Copy sys) → Stops 0 t → IsFinished n t
    finished t ((e, le, v), over) =
        let (none_lost, unread, unwritten) =
          stopped n e t (copying sys address infd outfd t) over v refl in
        let nothing : t.pending_operations ≡ [] =
          nothing_pending n t.pending_operations
            (subst (λ d. All (IsSound n d) t.pending_operations) none_lost v.sound)
            (omega (arith, v.budget, unwritten)) in
        record {
          pending = nothing;
          reads = v.reading ∙ ap (sum_by one_read) nothing;
          writes = v.writing ∙ ap (sum_by one_write) nothing;
          offset = omega (arith, v.covered, unread);
          unread = unread;
          unwritten = unwritten;
        }

    -- If no completion gives more bytes than its block has, then the outer loop of `copy_file`,
    -- for a file of fewer than 2 ^ 64 bytes, never panics. When it ends normally, the offset is
    -- the size of the file, nothing is left to read or to write by its counters, and no operation
    -- is pending or counted as in flight.
    pub copy_loop-IsFinished :
        (fuel drained : ℕ) (u : IoUring sys)
        → n < 2 ^ 64
        → Good (IsFinished n) (copy_loop sys address infd outfd fuel drained (begin sys n u))
    copy_loop-IsFinished fuel drained u h =
        Good-mono (Stops 0) (IsFinished n)
          (copy_loop sys address infd outfd fuel drained (begin sys n u)) finished
          (loop-Good fuel drained 0 (begin sys n u) (begin-Accounts sys n u h))

    no_tail :
        (o : Outcome (Copy sys))
        → Good (IsFinished n) o
        → and_then o (λ s. finish_writes sys s.writes_in_flight s.ring.ring)
          ≡ and_then o (λ s. done s.ring.ring)
    unfolding finish_writes
    no_tail (done t) h = ap (λ w. finish_writes sys w t.ring.ring) h.writes
    no_tail (fails e) h = refl
    no_tail panics h = refl
    no_tail unfinished h = refl

    -- Under the same conditions the last loop of `copy_file`, which waits for the remaining
    -- writes, never runs: the whole is the outer loop and then `Ok`.
    pub copy_file_lem :
        (fuel drained : ℕ) (u : IoUring sys)
        → n < 2 ^ 64
        → copy_file sys address infd outfd fuel drained n u
          ≡ and_then
              (copy_loop sys address infd outfd fuel drained (begin sys n u))
              (λ s. done s.ring.ring)
    unfolding copy_file
    copy_file_lem fuel drained u h = no_tail _ (copy_loop-IsFinished fuel drained u h)
