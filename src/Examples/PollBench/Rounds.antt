-- ===== src/Examples/PollBench/Rounds.antt =====
-- examples/poll-bench.rs: each round counts 32 requests and leaves nothing on the ring.
use liburing_rs.Base.{
  ℕ, suc, ◌+◌, ◌*◌, ◌^◌, ◌≤◌, ◌<◌, ◌≡◌, refl, sym, subst, ap, ◌∙◌, inl, inr, Bool-cases, false,
  Option, some, List, [], ◌∷◌, length, ltb, if◌then◌else◌, arith,
}
use liburing_rs.Base.Int.{ℤ, pos, int_eq}
use liburing_rs.Base.Outcome.{StdResult, ok, err}
use native.Mathlib.Decide.{ℕ_discrete}
use liburing_rs.Sys.{Sys}
use liburing_rs.Sys.Documented.{Documented}
use liburing_rs.Sys.Progress.{IsQuiet}
use liburing_rs.Error.{Error}
use liburing_rs.Uring
use liburing_rs.Uring.{IoUring}
use liburing_rs.Uring.Laws.{submit-Submits}
use liburing_rs.Uring.Faults.{submit_all}
use liburing_rs.Uring.Load.{load, submit_load}
use liburing_rs.Examples.PollBench.Defs.{
  queue_depth, BenchError, Pipe, Bench, push_polls, counted, read_then, write_then, submit_then,
  bench_round, next_round, bench_loop,
}
use liburing_rs.Examples.PollBench.Await.{
  Finishes, blamed, Ended, Ended-mono, Blames, load-push_polls, Awaited, await-Finishes,
}

-- The readings of the clock before the first that ends the loop.
abbrev pub rounds : ℕ → List ℕ → ℕ
rounds tstop [] = 0
rounds tstop (now ∷ later) = if ltb now tstop then suc (rounds tstop later) else 0

module _ (sys : Sys) (doc : Documented sys) (pipes : Pipe)
    (prep_poll_add : sys.Sqe → ℤ → ℕ → sys.Sqe) (pollin : ℕ) where
  open sys use {Ring, Sqe}
  open doc use {sq, cq, inflight}
  open pipes use {State, write_one, read_one}

  next_ends :
      (again : Bench sys pipes prep_poll_add pollin
        → Option (StdResult (Bench sys pipes prep_poll_add pollin) BenchError))
      (x : StdResult (Bench sys pipes prep_poll_add pollin) BenchError)
      → ((t : Bench sys pipes prep_poll_add pollin)
          → (o : StdResult (Bench sys pipes prep_poll_add pollin) BenchError) × (again t ≡ some o))
      → (o : StdResult (Bench sys pipes prep_poll_add pollin) BenchError) × (next_round sys pipes
            prep_poll_add pollin again x
          ≡ some o)
  next_ends again (ok t) ends = ends t
  next_ends again (err e) ends = (err e, refl)

  -- The loop ends by the first reading of the clock that is not below `tstop`.
  loop_ends :
      (tstop : ℕ) (times : List ℕ) (s : Bench sys pipes prep_poll_add pollin)
      → rounds tstop times < length times
      → (o : StdResult (Bench sys pipes prep_poll_add pollin) BenchError) × (bench_loop sys pipes
            prep_poll_add pollin tstop times s
          ≡ some o)
  unfolding bench_loop
  loop_ends tstop [] s over = absurd (omega (arith, over))
  loop_ends tstop (now ∷ later) s over = elim (Bool-cases (ltb now tstop)) [
    | inl early ↦
        let ends : rounds tstop later < length later = ground (arith, over, early) in
        rw (early, bench_loop)
          (next_ends (bench_loop sys pipes prep_poll_add pollin tstop later)
            (bench_round sys pipes prep_poll_add pollin s) (λ t. loop_ends tstop later t ends))
    | inr late ↦ rw (late, bench_loop) (ok s, refl)
  ]

  module _ (roomy : (r : Ring) → queue_depth ≤ sys.ring_entries r) where
    module _ (F : Type 0) (blames : Blames sys doc pipes prep_poll_add pollin F) where
      -- The counter is at `n`, and nothing is left over.
      abbrev pub Counts : ℕ → Bench sys pipes prep_poll_add pollin → Type 0
      Counts n t = (t.nr_reqs ≡ n) × IsQuiet sys doc t.ring.ring

      counted-Finishes :
          (n : ℕ) (p : State) (x : StdResult (ℕ × Ring) BenchError)
          → Finishes (Awaited sys doc pipes prep_poll_add pollin roomy F blames n) F x
          → Finishes (Counts n) F (counted sys pipes prep_poll_add pollin p x)
      counted-Finishes n p (ok x) h = h
      counted-Finishes n p (err e) h = h

      module _ (s : Bench sys pipes prep_poll_add pollin) (none_queued : sq s.ring.ring ≡ [])
          (all : load sys doc s.ring.ring ≡ queue_depth)
          (small : s.nr_reqs + queue_depth < 2 ^ 64) where
        read-Finishes :
            (x : ℤ × State)
            → (int_eq x.0 (pos 1) ≡ false → F)
            → Finishes
                (Counts (s.nr_reqs + queue_depth))
                F
                (read_then sys pipes prep_poll_add pollin s x)
        read-Finishes (ret, p) h = elim (Bool-cases (int_eq ret (pos 1))) [
          | inl one ↦ rw one (
              counted-Finishes _ p _ (
                await-Finishes sys doc pipes prep_poll_add pollin roomy F blames queue_depth
                  s.nr_reqs s.ring.ring none_queued all small))
          | inr none_read ↦ rw none_read (h none_read)
        ]

        write-Finishes :
            (x : ℤ × State)
            → (int_eq x.0 (pos 1) ≡ false → F)
            → Finishes
                (Counts (s.nr_reqs + queue_depth))
                F
                (write_then sys pipes prep_poll_add pollin s x)
        write-Finishes (ret, p) h = elim (Bool-cases (int_eq ret (pos 1))) [
          | inl one ↦ rw one (read-Finishes (read_one p) (blames.unread p))
          | inr none_written ↦ rw none_written (h none_written)
        ]

      submit-Finishes :
          (s : Bench sys pipes prep_poll_add pollin) (u : IoUring sys)
          → load sys doc u.ring ≡ queue_depth
          → s.nr_reqs + queue_depth < 2 ^ 64
          → (got : StdResult ℕ Error) → (Uring.submit sys u).0 ≡ got
          → Finishes
              (Counts (s.nr_reqs + queue_depth))
              F
              (submit_then sys pipes prep_poll_add pollin s (got, (Uring.submit sys u).1))
      submit-Finishes s u all small (err e) sub = blames.refused u e sub
      submit-Finishes s u all small (ok n) sub = elim (ℕ_discrete n (length (sq u.ring))) [
        | yes whole ↦
            write-Finishes (record s { ring = (Uring.submit sys u).1 })
              (submit_all sys doc u n sub whole)
              (submit_load sys doc _ _ _ (submit-Submits sys doc u) ∙ all) small (write_one s.pipe)
              (blames.unwritten s.pipe)
        | no part ↦
            blamed (Counts (s.nr_reqs + queue_depth)) F
              (write_then sys pipes prep_poll_add pollin
                (record s { ring = (Uring.submit sys u).1 }) (write_one s.pipe))
              (blames.partial u n sub part)
      ]

      round-Finishes :
          (s : Bench sys pipes prep_poll_add pollin)
          → IsQuiet sys doc s.ring.ring
          → s.nr_reqs + queue_depth < 2 ^ 64
          → Finishes
              (Counts (s.nr_reqs + queue_depth))
              F
              (bench_round sys pipes prep_poll_add pollin s)
      unfolding bench_round
      round-Finishes s q small =
          submit-Finishes s
            (record { ring = push_polls sys pipes prep_poll_add pollin queue_depth s.ring.ring })
            (load-push_polls sys doc pipes prep_poll_add pollin roomy queue_depth s.ring.ring
                (omega (arith, ap length q.queue))
              ∙ omega (arith, ap length q.queue, ap length q.flight, ap length q.done))
            small _ refl

      next-Ended :
          (n m : ℕ)
          (again : Bench sys pipes prep_poll_add pollin
            → Option (StdResult (Bench sys pipes prep_poll_add pollin) BenchError))
          (x : StdResult (Bench sys pipes prep_poll_add pollin) BenchError)
          → ((t : Bench sys pipes prep_poll_add pollin)
              → (o : StdResult (Bench sys pipes prep_poll_add pollin) BenchError) × (again t
                  ≡ some o))
          → ((t : Bench sys pipes prep_poll_add pollin) → Counts n t → Ended (Counts m) F (again t))
          → Finishes (Counts n) F x
          → Ended (Counts m) F (next_round sys pipes prep_poll_add pollin again x)
      next-Ended n m again (ok t) ends next (inl f) =
          let (o, e) = ends t in subst (Ended (Counts m) F) (sym e) (blamed (Counts m) F o f)
      next-Ended n m again (ok t) ends next (inr h) = next t h
      next-Ended n m again (err e) ends next h = h

      -- On a ring with nothing left over and at least 32 entries, where a reading of the clock is not
      -- below `tstop`, the loop comes to its end. Either the counter of requests has gone up by 32 for
      -- each reading of the clock before the first such one, and nothing is left over on the ring; or
      -- it returned an error, and what follows from the failure of a call is the case.
      pub bench_loop-Ended :
          (tstop : ℕ) (times : List ℕ) (s : Bench sys pipes prep_poll_add pollin)
          → IsQuiet sys doc s.ring.ring
          → rounds tstop times < length times
          → s.nr_reqs + queue_depth * rounds tstop times < 2 ^ 64
          → Ended
              (Counts (s.nr_reqs + queue_depth * rounds tstop times))
              F
              (bench_loop sys pipes prep_poll_add pollin tstop times s)
      unfolding bench_loop
      bench_loop-Ended tstop [] s q over small = absurd (omega (arith, over))
      bench_loop-Ended tstop (now ∷ later) s q over small = elim (Bool-cases (ltb now tstop)) [
        | inl early ↦
            let total : s.nr_reqs + queue_depth * suc (rounds tstop later) < 2 ^ 64 =
              ground (arith, small, early) in
            let ends : rounds tstop later < length later = ground (arith, over, early) in
            rw (early, bench_loop)
              (next-Ended (s.nr_reqs + queue_depth) _
                (bench_loop sys pipes prep_poll_add pollin tstop later)
                (bench_round sys pipes prep_poll_add pollin s) (λ t. loop_ends tstop later t ends)
                (λ t (e, quiet).
                  Ended-mono (Counts (t.nr_reqs + queue_depth * rounds tstop later))
                    (Counts (s.nr_reqs + queue_depth * suc (rounds tstop later))) F
                    (bench_loop sys pipes prep_poll_add pollin tstop later t)
                    (λ u (c, done). (omega (arith, c, e), done))
                    (bench_loop-Ended tstop later t quiet ends (omega (arith, e, total))))
                (round-Finishes s q (omega (arith, total))))
        | inr late ↦ rw (late, bench_loop) (inr (omega arith, q))
      ]
