-- ===== src/Examples/LinkCp/Total.antt =====
-- examples/link-cp.rs: `copy_file_linked` ends, and has counted both completions of every pair.
use liburing_rs.Base.{
  ℕ, zero, suc, ◌+◌, ◌*◌, ◌^◌, ◌<◌, ◌≡◌, refl, ◌∙◌, inl, inr, ◌⊎◌, true, false, [], length,
  Bool-cases, arith, ltb, if◌then◌else◌,
}
use liburing_rs.Base.Int.{ℤ}
use liburing_rs.Sys.{Sys}
use liburing_rs.Sys.Documented.{Documented}
use liburing_rs.Sys.Progress.{IsQuiet}
use liburing_rs.Uring.{IoUring}
use liburing_rs.Uring.Load.{load-IsQuiet}
use liburing_rs.Examples.Outcome.{Outcome, done, fails, panics, unfinished, and_then, Ensures}
use liburing_rs.Examples.LinkCp.Defs.{
  Linked, begin, copy_round, copying, copy_loop, copy_file_linked,
}
use liburing_rs.Examples.LinkCp.Counting.{completed}
use liburing_rs.Examples.LinkCp.Ledger.{both, Ledger, begin-Ledger}
use liburing_rs.Examples.LinkCp.Pairs.{Even}
use liburing_rs.Examples.LinkCp.Rounds.{Partial, is_idle, left, Ready, round-Ensures}

module _ (sys : Sys) (doc : Documented sys) where
  open sys use {Ring, Sqe}
  open doc use {sq, cq, inflight}

  -- The whole file is queued, nothing is counted as in flight, the ring holds nothing, and each pair
  -- has had both completions.
  pub record IsComplete (n : ℕ) (s : Linked sys) : Type 0 where
    pub offset : s.offset ≡ n
    pub inflight : s.inflight ≡ 0
    pub quiet : IsQuiet sys doc s.ring.ring
    pub both_done : (i : ℕ) → i < length s.operations → completed s.operations i ≡ 2

  module _ (even : Even sys doc) (G : Type 0) (partial : Partial sys doc G) (address : ℕ → ℕ)
      (ecanceled : ℕ) (infd outfd : ℤ) (n : ℕ) where
    over :
        (s : Linked sys)
        → Ledger sys doc n s
        → copying sys address ecanceled infd outfd n s ≡ false
        → (s.offset ≡ n) × (s.inflight ≡ 0)
    over s v stop = ground (arith, v.within, stop)

    complete :
        (s : Linked sys)
        → Ledger sys doc n s
        → copying sys address ecanceled infd outfd n s ≡ false
        → IsComplete n s
    complete s v stop =
        let (whole, none_in) = over s v stop in
        let quiet = load-IsQuiet sys doc s.ring.ring (v.total ∙ none_in) in
        record {
          offset = whole;
          inflight = none_in;
          quiet = quiet;
          both_done = λ i h.
              pair_done i (length s.operations) (completed s.operations i) _ h
                (bare s.ring.ring quiet i) (v.own i);
        }
      where
        bare : (r : Ring) → IsQuiet sys doc r → (i : ℕ) → both sys doc i r ≡ 0
        bare r q i = rw (q.queue, q.flight, q.done) refl

        pair_done : (i len c b : ℕ) → i < len → b ≡ 0 → b + c ≡ (if ltb i len then 2 else 0) → c ≡ 2
        pair_done i len c b h z e = ground arith

    abbrev idle_on : (Linked sys → ℕ) → Outcome (Linked sys) → ℕ
    idle_on rest (done t) = rest t
    idle_on rest (fails e) = 0
    idle_on rest panics = 0
    idle_on rest unfinished = 0

    -- How many of the rounds of the outer loop, on the same fuel, find no completion.
    unfoldable pub idle_rounds : ℕ → ℕ → Linked sys → ℕ
    idle_rounds zero peeks s = 0
    idle_rounds (suc fuel) peeks s = elim (copying sys address ecanceled infd outfd n s) [
      | true ↦
          is_idle sys doc even G partial address ecanceled infd outfd n s
          + idle_on (idle_rounds fuel peeks) (copy_round sys address ecanceled infd outfd n peeks s)
      | false ↦ 0
    ]

    next-Ensures :
        (fuel peeks w : ℕ) (o : Outcome (Linked sys))
        → w + idle_on (idle_rounds fuel peeks) o < suc fuel
        → ((t : Linked sys)
            → Ledger sys doc n t
            → sq t.ring.ring ≡ []
            → left sys doc even G partial address ecanceled infd outfd n t
                + idle_rounds fuel peeks t
              < fuel
            → G
              ⊎ Ensures
                  (IsComplete n)
                  Unit
                  (copy_loop sys address ecanceled infd outfd n fuel peeks t))
        → G ⊎ Ensures (Ready sys doc even G partial address ecanceled infd outfd n w) Unit o
        → G
          ⊎ Ensures
              (IsComplete n)
              Unit
              (and_then o (copy_loop sys address ecanceled infd outfd n fuel peeks))
    next-Ensures fuel peeks w o enough again (inl g) = inl g
    next-Ensures fuel peeks w (done t) enough again (inr (v, q, lt)) =
        again t v q (omega (arith, lt, enough))
    next-Ensures fuel peeks w (fails e) enough again (inr h) = inr tt
    next-Ensures fuel peeks w panics enough again (inr h) = inr h
    next-Ensures fuel peeks w unfinished enough again (inr h) = inr h

    copy_loop-Ensures :
        (fuel peeks : ℕ) (s : Linked sys)
        → Ledger sys doc n s
        → sq s.ring.ring ≡ []
        → left sys doc even G partial address ecanceled infd outfd n s + idle_rounds fuel peeks s
          < fuel
        → 65 < peeks
        → G
          ⊎ Ensures (IsComplete n) Unit (copy_loop sys address ecanceled infd outfd n fuel peeks s)
    unfolding copy_loop idle_rounds
    copy_loop-Ensures zero peeks s v none_queued enough many = absurd (omega (arith, enough))
    copy_loop-Ensures (suc fuel) peeks s v none_queued enough many =
        elim (Bool-cases (copying sys address ecanceled infd outfd n s)) [
          | inl go ↦
              let idle = is_idle sys doc even G partial address ecanceled infd outfd n s in
              let rest =
                idle_on (idle_rounds fuel peeks)
                  (copy_round sys address ecanceled infd outfd n peeks s) in
              let more : left sys doc even G partial address ecanceled infd outfd n s
                    + (idle + rest)
                  < suc fuel =
                rw (go, idle_rounds) at enough in
              rw (go, copy_loop)
                (next-Ensures fuel peeks
                  (left sys doc even G partial address ecanceled infd outfd n s + idle)
                  (copy_round sys address ecanceled infd outfd n peeks s) (omega (arith, more))
                  (λ t w q lt. copy_loop-Ensures fuel peeks t w q lt many)
                  (round-Ensures sys doc even G partial address ecanceled infd outfd n peeks s v
                    none_queued go many))
          | inr stop ↦ rw (stop, copy_loop) (inr (complete s v stop))
        ]

    -- On a ring with nothing left over and an even number of entries, `copy_file_linked` ends for
    -- every size below 2 ^ 63, with fuel for its outer loop above three times the size and the number
    -- of its rounds that find no completion, in which it only polls the queue again, and fuel above 65
    -- for the inner loop. It returned an error, or the whole file was queued, each pair had both of
    -- its completions counted, `inflight` is 0, and nothing is queued, in flight or unseen on the
    -- ring; or a submission took only a part of the entries, and what follows from that is the case.
    pub copy_file_linked_total :
        (fuel peeks : ℕ) (u : IoUring sys)
        → n < 2 ^ 63
        → IsQuiet sys doc u.ring
        → 3 * n + idle_rounds fuel peeks (begin sys u) < fuel
        → 65 < peeks
        → G
          ⊎ Ensures
              (IsComplete n)
              Unit
              (copy_file_linked sys address ecanceled infd outfd n fuel peeks u)
    unfolding copy_file_linked
    copy_file_linked_total fuel peeks u small q enough many =
        copy_loop-Ensures fuel peeks (begin sys u) (begin-Ledger sys doc n u small q) q.queue
          (omega (arith, enough)) many
