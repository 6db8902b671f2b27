-- ===== src/Examples/LinkCp/Rounds.antt =====
-- examples/link-cp.rs: one round of the outer loop of `copy_file_linked` leaves less to do.
use liburing_rs.Base.{
  ℕ, zero, suc, ◌+◌, ◌≤◌, ◌<◌, ◌≡◌, refl, ◌∙◌, ◌≢◌, ◌⊎◌, inl, inr, true, Option, none, some, [],
  length, Bool-cases, arith, ltb, ap,
}
use liburing_rs.Base.Int.{ℤ}
use liburing_rs.Base.Outcome.{StdResult, ok, err}
use native.Mathlib.Decide.{ℕ_discrete}
use liburing_rs.Sys.{Sys}
use liburing_rs.Sys.Documented.{Documented}
use liburing_rs.Error.{Error}
use liburing_rs.Queue.Cqe as CqeOps
use liburing_rs.Queue.Cqe.{Cqe}
use liburing_rs.Queue.Completion.{peek_cqe}
use liburing_rs.Queue.Delivery.{Peeks, empty, found, peek_cqe-Peeks, drop_lem}
use liburing_rs.Uring
use liburing_rs.Uring.{IoUring}
use liburing_rs.Uring.Laws.{submit-Submits}
use liburing_rs.Uring.Faults.{submit_all}
use liburing_rs.Uring.Load.{Keeps-load, Keeps-held, submit_load, submit_held}
use liburing_rs.Examples.Outcome.{
  Outcome, done, fails, panics, unfinished, and_then, Ensures, Ensures-mono,
}
use liburing_rs.Examples.LinkCp.Defs.{
  Linked, queue_depth, queue_pairs, submitted, submit_queued, is_failure, count_completion,
  peek_round, process, copy_round, copying,
}
use liburing_rs.Examples.LinkCp.Ledger.{Ledger, ring-Ledger, count-Ledger}
use liburing_rs.Examples.LinkCp.Pairs.{Even, work, Queues, queue_pairs-Queues, queue_pairs_some}

module _ (sys : Sys) (doc : Documented sys) where
  open sys use {Ring, Sqe}
  open doc use {sq, cq, inflight}

  -- What follows if a submission takes only a part of the entries: with `⊥` for `G`, none does.
  abbrev pub Partial : Type 0 → Type 0
  Partial G = (u : IoUring sys) (k : ℕ) → (Uring.submit sys u).0 ≡ ok k → k ≢ length (sq u.ring) → G

  -- A peek that finds nothing.
  abbrev pub misses : Option Cqe → ℕ
  misses none = 1
  misses (some c) = 0

  misses_one : (o : Option Cqe) → misses o ≤ 1
  misses_one none = omega arith
  misses_one (some c) = omega arith

  module _ (even : Even sys doc) (G : Type 0) (partial : Partial G) (address : ℕ → ℕ)
      (ecanceled : ℕ) (infd outfd : ℤ) (n : ℕ) where
    abbrev pub left : Linked sys → ℕ
    left s = work sys doc even address ecanceled infd outfd n s

    abbrev Sent : ℕ → Linked sys → Type 0
    Sent w t = Ledger sys doc n t × (sq t.ring.ring ≡ []) × (left t ≤ w)

    submitted-Ensures :
        (s : Linked sys)
        → Ledger sys doc n s
        → 1 ≤ s.inflight
        → (got : StdResult ℕ Error) → (Uring.submit sys s.ring).0 ≡ got
        → G
          ⊎ Ensures
              (Sent (left s))
              Unit
              (submitted sys address ecanceled infd outfd n s (got, (Uring.submit sys s.ring).1))
    submitted-Ensures s v some_in (err e) sub = inr tt
    submitted-Ensures s v some_in (ok k) sub = elim (ℕ_discrete k (length (sq s.ring.ring))) [
      | yes whole ↦ inr (
        ring-Ledger sys doc n s (Uring.submit sys s.ring).1 v
            (submit_load sys doc _ _ _ (submit-Submits sys doc s.ring))
            (λ j. submit_held sys doc j _ _ _ (submit-Submits sys doc s.ring)),
        submit_all sys doc s.ring k sub whole,
        omega arith,
      )
      | no part ↦ inl (partial s.ring k sub part)
    ]

    submit_queued-Ensures :
        (s : Linked sys)
        → Ledger sys doc n s
        → 1 ≤ s.inflight
        → G ⊎ Ensures (Sent (left s)) Unit (submit_queued sys address ecanceled infd outfd n s)
    unfolding submit_queued
    submit_queued-Ensures s v some_in =
        let positive : ltb 0 s.inflight ≡ true = ground arith in
        rw positive (submitted-Ensures s v some_in (Uring.submit sys s.ring).0 refl)

    -- After the completions have been taken out: fewer are left to count, unless none was found.
    abbrev Taken : Linked sys → Linked sys → Type 0
    Taken s t =
        Ledger sys doc n t
        × (sq t.ring.ring ≡ [])
        × (left t < left s + misses (peek_cqe sys s.ring.ring).0)

    peek_round-Ensures :
        (again : Linked sys → Outcome (Linked sys)) (s : Linked sys) (o : Option Cqe) (r : Ring)
        → ((t : Linked sys)
            → Ledger sys doc n t
            → sq t.ring.ring ≡ []
            → t.inflight + 1 ≡ s.inflight
            → Ensures (Taken t) Unit (again t))
        → Ledger sys doc n s
        → sq s.ring.ring ≡ []
        → (peek_cqe sys s.ring.ring).0 ≡ o
        → Peeks sys doc s.ring.ring r o
        → Ensures (Taken s) Unit (peek_round sys address ecanceled infd outfd n again s o r)
    peek_round-Ensures again s none r next v none_queued shown (empty keeps none_left) = (
      ring-Ledger sys doc n s (record { ring = r }) v (Keeps-load sys doc keeps)
          (λ k. Keeps-held sys doc k keeps),
      keeps.same ∙ none_queued,
      omega (arith, ap misses shown),
    )
    peek_round-Ensures again s (some c) r next v none_queued shown (found _ x rest keeps g) =
        elim (Bool-cases (is_failure sys address ecanceled infd outfd n (CqeOps.result sys r c))) [
          | inl bad ↦ rw (bad, peek_round) tt
          | inr good ↦
              let t =
                count_completion sys address ecanceled infd outfd n (CqeOps.result sys r c)
                  (CqeOps.user_data sys r c) (CqeOps.drop sys r c) s in
              let (ledger, fewer, same, on) =
                count-Ledger sys doc n s r (CqeOps.result sys r c) c x rest address ecanceled infd
                  outfd v keeps g in
              let (_, kept) = drop_lem sys doc r c x rest g in
              rw (good, peek_round)
                (Ensures-mono (Taken t) (Taken s) Unit (again t)
                  (λ a (w, q, le). (
                    w,
                    q,
                    omega (
                      arith,
                      le,
                      fewer,
                      same,
                      ap misses shown,
                      misses_one (peek_cqe sys t.ring.ring).0,
                    ),
                  ))
                  (next t ledger (ap sq on ∙ kept ∙ keeps.same ∙ none_queued) fewer))
        ]

    process-Ensures :
        (fuel : ℕ) (s : Linked sys)
        → Ledger sys doc n s
        → sq s.ring.ring ≡ []
        → s.inflight < fuel
        → Ensures (Taken s) Unit (process sys address ecanceled infd outfd n fuel s)
    unfolding process
    process-Ensures zero s v none_queued enough = absurd (omega arith)
    process-Ensures (suc fuel) s v none_queued enough =
        peek_round-Ensures (process sys address ecanceled infd outfd n fuel) s
          (peek_cqe sys s.ring.ring).0 (peek_cqe sys s.ring.ring).1
          (λ t w q fewer. process-Ensures fuel t w q (omega (arith, fewer, enough))) v none_queued
          refl (peek_cqe-Peeks sys doc s.ring.ring)

    -- A round whose submission ended so found nothing to count: 1 if that is so.
    abbrev pub idle : Outcome (Linked sys) → ℕ
    idle (done t) = misses (peek_cqe sys t.ring.ring).0
    idle (fails e) = 0
    idle panics = 0
    idle unfinished = 0

    -- The same of the round that starts at the state.
    abbrev pub is_idle : Linked sys → ℕ
    is_idle s = idle (
        submit_queued sys address ecanceled infd outfd n
          (queue_pairs sys address ecanceled infd outfd n queue_depth s))

    -- Between two rounds of the outer loop.
    abbrev pub Ready : ℕ → Linked sys → Type 0
    Ready w t = Ledger sys doc n t × (sq t.ring.ring ≡ []) × (left t < w)

    round_end-Ensures :
        (peeks w v : ℕ) (o : Outcome (Linked sys))
        → v ≤ w
        → 65 < peeks
        → G ⊎ Ensures (Sent v) Unit o
        → G
          ⊎ Ensures
              (Ready (w + idle o))
              Unit
              (and_then o (process sys address ecanceled infd outfd n peeks))
    round_end-Ensures peeks w v o le enough (inl g) = inl g
    round_end-Ensures peeks w v (done a) le enough (inr (l, q, less)) = inr (
        Ensures-mono (Taken a) (Ready (w + misses (peek_cqe sys a.ring.ring).0)) Unit
          (process sys address ecanceled infd outfd n peeks a)
          (λ b (l', q', lt). (l', q', omega (arith, lt, less, le)))
          (process-Ensures peeks a l q (omega (arith, l.depth, enough))))
    round_end-Ensures peeks w v (fails e) le enough (inr h) = inr tt
    round_end-Ensures peeks w v panics le enough (inr h) = inr h
    round_end-Ensures peeks w v unfinished le enough (inr h) = inr h

    pub round-Ensures :
        (peeks : ℕ) (s : Linked sys)
        → Ledger sys doc n s
        → sq s.ring.ring ≡ []
        → copying sys address ecanceled infd outfd n s ≡ true
        → 65 < peeks
        → G
          ⊎ Ensures
              (Ready (left s + is_idle s))
              Unit
              (copy_round sys address ecanceled infd outfd n peeks s)
    unfolding copy_round
    round-Ensures peeks s v none_queued go enough =
        let t = queue_pairs sys address ecanceled infd outfd n queue_depth s in
        let q : Queues sys doc even address ecanceled infd outfd n s t =
          queue_pairs-Queues sys doc even address ecanceled infd outfd n queue_depth s v
            (0, ap length none_queued) in
        round_end-Ensures peeks (left s) (left t)
          (submit_queued sys address ecanceled infd outfd n t) (omega (arith, q.less)) enough
          (submit_queued-Ensures t q.ledger
            (queue_pairs_some sys doc even address ecanceled infd outfd n 63 s v none_queued go))
