-- ===== src/Examples/Cat/Reads.antt =====
-- examples/cat.rs: what a round reads, when the file stays as it is.
use liburing_rs.Base.{
  ℕ, ◌-◌, ◌≤◌, ◌≡◌, sym, ap, ◌∙◌, subst, ◌≢◌, true, List, [], ◌∷◌, ◌++◌, length, take, drop,
}
use liburing_rs.Base.Int.{ℤ, pos, negsuc}
use liburing_rs.Base.Outcome.{StdResult, ok, err}
use native.Mathlib.Decide.{ℕ_discrete}
use liburing_rs.Sys.{Sys, IoUringCqe}
use liburing_rs.Sys.Documented.{Documented}
use liburing_rs.Sys.Progress.{IsQuiet}
use liburing_rs.Error.{Error, Result}
use liburing_rs.Ops.Traits.{Slice}
use liburing_rs.Ops.Read
use liburing_rs.Queue.Cqe as CqeOps
use liburing_rs.Queue.Cqe.{Cqe}
use liburing_rs.Queue.Submission.{is_full}
use liburing_rs.Queue.Completion.{wait_cqe}
use liburing_rs.Uring
use liburing_rs.Uring.{IoUring}
use liburing_rs.Uring.Laws.{submit_and_wait-Submits}
use liburing_rs.Uring.Exchange
use liburing_rs.Uring.Exchange.{full, unsubmitted, unanswered, answered, exchange-Ends}
use liburing_rs.Uring.Lone.{lone_answer}
use liburing_rs.Examples.Cat.Defs.{block_size, bytes_of, read_block}

module _ (sys : Sys) (doc : Documented sys) where
  open sys use {Ring, Sqe}
  open doc use {sq, cq, inflight}

  -- The ring behind `submit_and_wait` and behind the wait for a completion.
  abbrev pub sent : IoUring sys → Ring
  sent u = (Uring.submit_and_wait sys u 1).1.ring

  abbrev pub arrived : IoUring sys → Ring
  arrived u = (wait_cqe sys (sent u)).1

  -- What a call may refuse, and what follows from that: with `⊥` for `F`, no call fails.
  pub record Blames (F : Type 0) : Type 0 where
    pub room : (r : Ring) → IsQuiet sys doc r → is_full sys r ≡ true → F
    pub refused : (u : IoUring sys) (e : Error) → (Uring.submit_and_wait sys u 1).0 ≡ err e → F
    pub partial :
        (u : IoUring sys) (n : ℕ)
        → (Uring.submit_and_wait sys u 1).0 ≡ ok n
        → n ≢ length (sq u.ring)
        → F
    pub unanswered :
        (u : IoUring sys) (s : Sqe) (fd : ℤ) (buf len offset k : ℕ) (e : Error)
        → sq u.ring
          ≡ sys.io_uring_sqe_set_data64 (sys.io_uring_prep_read s fd buf len offset) k ∷ []
        → cq u.ring ≡ []
        → inflight u.ring ≡ []
        → (Uring.submit_and_wait sys u 1).0 ≡ ok 1
        → (wait_cqe sys (sent u)).0 ≡ err e
        → F

  module _ (contents : Ring → Slice → List ℕ) (file : List ℕ) where
    -- The bytes of the file from the offset on, as many as the code says and at least one before
    -- the end of the file, are in the buffer. A negative code is a failure of the read.
    abbrev pub ReadsTo : Type 0 → Ring → Slice → ℕ → ℤ → Type 0
    ReadsTo F r buffer offset (pos n) =
        (n ≤ buffer.len)
        × (n ≤ length file - offset)
        × (n ≡ 0 → buffer.len ≢ 0 → length file ≤ offset)
        × (contents r (record { as_ptr = buffer.as_ptr; len = n }) ≡ take n (drop offset file))
    ReadsTo F r buffer offset (negsuc e) = F

    -- A file whose contents do not change: a read that is alone on its ring finds them in the
    -- buffer when its completion is there, and still when that is marked as seen.
    abbrev pub Serves : Type 0 → (ℕ → ℕ) → ℤ → Type 0
    Serves F address fd =
        (u : IoUring sys) (s : Sqe) (len offset k : ℕ) (c : Cqe) (x : IoUringCqe)
        (rest : List IoUringCqe)
        → let t =
            sys.io_uring_sqe_set_data64 (sys.io_uring_prep_read s fd (address offset) len offset)
              k in
          sq u.ring ≡ t ∷ []
          → cq u.ring ≡ []
          → inflight u.ring ≡ []
          → cq (arrived u) ≡ x ∷ rest
          → (wait_cqe sys (sent u)).0 ≡ ok c
          → ReadsTo F (CqeOps.drop sys (arrived u) c)
              (record { as_ptr = address offset; len = len }) offset x.res

    module _ (F : Type 0) (blames : Blames F) (address : ℕ → ℕ) (fd : ℤ)
        (serves : Serves F address fd) (offset : ℕ) where
      abbrev pub buffer : Slice
      buffer = record { as_ptr = address offset; len = block_size }

      -- What a round has: the bytes that it read, or a failure.
      abbrev pub Block : Ring → StdResult ℕ Error → Type 0
      Block r (ok n) = IsQuiet sys doc r × ReadsTo F r buffer offset (pos n)
      Block r (err e) = F

      code-Block :
          (r : Ring) (z : ℤ)
          → IsQuiet sys doc r
          → ReadsTo F r buffer offset z
          → Block r (bytes_of z)
      code-Block r (pos n) q h = (q, h)
      code-Block r (negsuc e) q h = h

      -- The result of a completion, as `read_block` gives it.
      abbrev outcome : Ring → Cqe → Result ℕ
      outcome r c = bytes_of (CqeOps.result sys r c)

      abbrev Ends : Ring → Ring → StdResult ℕ Error → Type 0
      Ends =
          Exchange.Ends sys doc (Read.prepare sys (Read.from_slice fd buffer offset)) 1
            (λ u. Uring.submit_and_wait sys u 1) (λ u. submit_and_wait-Submits sys doc u 1) outcome

      Ends-Block :
          (r r' : Ring) (o : StdResult ℕ Error) → IsQuiet sys doc r → Ends r r' o → Block r' o
      unfolding Read.prepare Read.from_slice
      Ends-Block r r' (err _) q (full isfull _ _ _) = blames.room r q isfull
      Ends-Block r r' (err e) q (unsubmitted _ sqe u h sub _ _) = blames.refused u e sub
      Ends-Block r r' (err e) q (unanswered _ sqe u n taken h sub w count split posts) =
          elim (ℕ_discrete n 1) [
            | yes all ↦
                blames.unanswered u h.was fd (address offset) block_size offset 1 e
                  (h.queue ∙ ap (λ s. s ++ sqe ∷ []) q.queue ∙ ap (λ s. s ∷ []) h.made)
                  (h.done ∙ q.done) (h.flight ∙ q.flight) (sub ∙ ap ok all) w
            | no part ↦
                blames.partial u n sub
                  (λ e. part (e ∙ ap length (h.queue ∙ ap (λ s. s ++ sqe ∷ []) q.queue)))
          ]
      Ends-Block r r' o q
            (answered _ sqe u n taken c x rest h sub w guard last count split posts e) =
          let (quiet, own) = lone_answer sys doc r r' 1 sqe taken x q h.tag split posts in
          subst (Block r') (sym (e ∙ ap bytes_of guard.result)) (
            code-Block r' x.res quiet (
              subst (λ s. ReadsTo F s buffer offset x.res) (sym last)
                (serves u h.was block_size offset 1 c x rest
                  (h.queue ∙ ap (λ s. s ++ sqe ∷ []) q.queue ∙ ap (λ s. s ∷ []) h.made)
                  (h.done ∙ q.done) (h.flight ∙ q.flight) guard.oldest w)))

      pub read_block-Block :
          (u : IoUring sys)
          → IsQuiet sys doc u.ring
          → Block (read_block sys fd buffer offset u).1.ring (read_block sys fd buffer offset u).0
      unfolding read_block
      read_block-Block u q = Ends-Block u.ring _ _ q (
          exchange-Ends sys doc (Read.prepare sys (Read.from_slice fd buffer offset)) 1
            (λ u. Uring.submit_and_wait sys u 1) (λ u. submit_and_wait-Submits sys doc u 1) outcome
            u)
