-- ===== src/Examples/PollBench/Await.antt =====
-- examples/poll-bench.rs: the 32 polls of a round are queued, and the wait counts each of them.
use liburing_rs.Base.{
  ℕ, zero, suc, ◌+◌, ◌^◌, ◌≤◌, ◌<◌, ◌≡◌, refl, ap, ◌∙◌, ◌≢◌, ◌⊎◌, inl, inr, false, Option, none,
  some, [], ◌∷◌, length, length-append, arith,
}
use liburing_rs.Base.Int.{ℤ, pos, int_eq}
use liburing_rs.Base.Outcome.{StdResult, ok, err}
use liburing_rs.Sys.{Sys}
use liburing_rs.Sys.Documented.{Documented}
use liburing_rs.Sys.Progress.{IsQuiet}
use liburing_rs.Error.{Error, submission_queue_full}
use liburing_rs.Queue.Cqe as CqeOps
use liburing_rs.Queue.Cqe.{Cqe}
use liburing_rs.Queue.Submission.{get_sqe, get_sqe_or_err, ok_or, is_full}
use liburing_rs.Queue.Completion.{wait_cqe}
use liburing_rs.Queue.Space.{Gets, get_sqe_or_err-Gets, space_left-add-length}
use liburing_rs.Queue.Fill.{tagged, filled-Fills}
use liburing_rs.Queue.Delivery.{Gives, given, wait_cqe-Gives, drop_lem}
use liburing_rs.Uring
use liburing_rs.Uring.{IoUring}
use liburing_rs.Uring.Load.{load, filled_load, read_load, load-IsQuiet}
use liburing_rs.Examples.Words.{add64}
use liburing_rs.Examples.PollBench.Defs.{
  queue_depth, BenchError, Pipe, poll_add, push_poll, push_polls, await_round, await_polls,
}

-- The value has the property, or the other is the case, as it is for an error.
abbrev pub Finishes : {A : Type 0} → (A → Type 0) → Type 0 → StdResult A BenchError → Type 0
Finishes P F (ok a) = F ⊎ P a
Finishes P F (err e) = F

pub Finishes-mono :
    {A : Type 0} (P Q : A → Type 0) (F : Type 0) (o : StdResult A BenchError)
    → ((a : A) → P a → Q a)
    → Finishes P F o
    → Finishes Q F o
Finishes-mono P Q F (ok a) k (inl f) = inl f
Finishes-mono P Q F (ok a) k (inr h) = inr (k a h)
Finishes-mono P Q F (err e) k h = h

pub blamed :
    {A : Type 0} (P : A → Type 0) (F : Type 0) (o : StdResult A BenchError) → F → Finishes P F o
blamed P F (ok a) f = inl f
blamed P F (err e) f = f

-- It ended, with such a value or such an error.
abbrev pub Ended : {A : Type 0} → (A → Type 0) → Type 0 → Option (StdResult A BenchError) → Type 0
Ended P F none = ⊥
Ended P F (some o) = Finishes P F o

pub Ended-mono :
    {A : Type 0} (P Q : A → Type 0) (F : Type 0) (o : Option (StdResult A BenchError))
    → ((a : A) → P a → Q a)
    → Ended P F o
    → Ended Q F o
Ended-mono P Q F none k h = h
Ended-mono P Q F (some o) k h = Finishes-mono P Q F o k h

module _ (sys : Sys) (doc : Documented sys) (pipes : Pipe)
    (prep_poll_add : sys.Sqe → ℤ → ℕ → sys.Sqe) (pollin : ℕ) where
  open sys use {Ring, Sqe}
  open doc use {sq, cq, inflight}
  open pipes use {State, write_one, read_one}

  -- What a call may refuse, and what follows from that: with `⊥` for `F`, no call fails, and each
  -- submission takes every entry.
  pub record Blames (F : Type 0) : Type 0 where
    pub refused : (u : IoUring sys) (e : Error) → (Uring.submit sys u).0 ≡ err e → F
    pub partial :
        (u : IoUring sys) (n : ℕ) → (Uring.submit sys u).0 ≡ ok n → n ≢ length (sq u.ring) → F
    pub unanswered :
        (r : Ring) (e : Error) → sq r ≡ [] → 1 ≤ load sys doc r → (wait_cqe sys r).0 ≡ err e → F
    pub unwritten : (p : State) → int_eq (write_one p).0 (pos 1) ≡ false → F
    pub unread : (p : State) → int_eq (read_one p).0 (pos 1) ≡ false → F

  module _ (roomy : (r : Ring) → queue_depth ≤ sys.ring_entries r) where
    push-load :
        (n : ℕ) (r : Ring) (o : Option ℕ) (r' : Ring)
        → length (sq r) + suc n ≤ queue_depth
        → Gets sys doc r (ok_or o submission_queue_full) r'
        → let t = push_poll sys pipes prep_poll_add pollin o r' in
          (load sys doc t ≡ load sys doc r + 1) × (length (sq t) ≡ length (sq r) + 1)
    unfolding is_full
    push-load n r none r' fits (Gets.full isfull _ _ _) =
        absurd (ground (arith, isfull, roomy r, space_left-add-length sys doc r))
    push-load n r (some p) r' fits got =
        let prepare = poll_add sys pipes prep_poll_add pollin in
        let h = filled-Fills sys doc prepare 1 r r' p got in
        (
          filled_load sys doc h,
          omega (arith, ap length h.queue, length-append (sq r) (tagged sys prepare 1 r' p ∷ [])),
        )

    pub load-push_polls :
        (n : ℕ) (r : Ring)
        → length (sq r) + n ≤ queue_depth
        → load sys doc (push_polls sys pipes prep_poll_add pollin n r) ≡ load sys doc r + n
    unfolding push_polls get_sqe_or_err
    load-push_polls zero r fits = omega arith
    load-push_polls (suc n) r fits =
        let (more, longer) =
          push-load n r (get_sqe sys r).0 (get_sqe sys r).1 fits (get_sqe_or_err-Gets sys doc r) in
        omega (
          arith,
          more,
          load-push_polls n
              (push_poll sys pipes prep_poll_add pollin (get_sqe sys r).0 (get_sqe sys r).1)
              (omega (arith, longer, fits)),
        )

    module _ (F : Type 0) (blames : Blames F) where
      -- All that the ring held was counted.
      abbrev pub Awaited : ℕ → ℕ × Ring → Type 0
      Awaited n (nr, r) = (nr ≡ n) × IsQuiet sys doc r

      await_one :
          (n nr : ℕ) (r : Ring) (again : ℕ → Ring → StdResult (ℕ × Ring) BenchError)
          → ((m : ℕ) (t : Ring)
              → sq t ≡ []
              → load sys doc t ≡ n
              → m + n < 2 ^ 64
              → Finishes (Awaited (m + n)) F (again m t))
          → sq r ≡ []
          → load sys doc r ≡ suc n
          → nr + suc n < 2 ^ 64
          → (got : StdResult Cqe Error) → (wait_cqe sys r).0 ≡ got
          → Gives sys doc r (wait_cqe sys r).1 got
          → Finishes
              (Awaited (nr + suc n))
              F
              (await_round sys pipes prep_poll_add pollin again nr got (wait_cqe sys r).1)
      await_one n nr r again next none_queued all small (err e) w g =
          blames.unanswered r e none_queued (omega (arith, all)) w
      await_one n nr r again next none_queued all small (ok c) w (given _ x rest keeps guard) =
          let t = CqeOps.drop sys (wait_cqe sys r).1 c in
          let one : add64 nr 1 ≡ nr + 1 = omega (arith, small) in
          let (_, same) = drop_lem sys doc (wait_cqe sys r).1 c x rest guard in
          Finishes-mono (Awaited (add64 nr 1 + n)) (Awaited (nr + suc n)) F (again (add64 nr 1) t)
            (λ (m, q) (e, quiet). (omega (arith, e, one), quiet))
            (next (add64 nr 1) t (same ∙ keeps.same ∙ none_queued)
              (omega (arith, all, read_load sys doc r (wait_cqe sys r).1 c x rest keeps guard))
              (omega (arith, one, small)))

      pub await-Finishes :
          (n nr : ℕ) (r : Ring)
          → sq r ≡ []
          → load sys doc r ≡ n
          → nr + n < 2 ^ 64
          → Finishes (Awaited (nr + n)) F (await_polls sys pipes prep_poll_add pollin n nr r)
      unfolding await_polls
      await-Finishes zero nr r none_queued all small = inr (omega arith, load-IsQuiet sys doc r all)
      await-Finishes (suc n) nr r none_queued all small =
          await_one n nr r (await_polls sys pipes prep_poll_add pollin n) (await-Finishes n)
            none_queued all small (wait_cqe sys r).0 refl (wait_cqe-Gives sys doc r)
