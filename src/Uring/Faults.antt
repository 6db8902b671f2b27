-- ===== src/Uring/Faults.antt =====
-- What can go wrong with one request on a ring with nothing left over, and what is the case if nothing
-- does: the result is made of the completion that answers the request.
use liburing_rs.Base.{
  ℕ, ◌≡◌, sym, ap, ◌∙◌, subst, ◌≢◌, ◌⊎◌, inl, inr, true, List, [], ◌∷◌, ◌++◌, length, length-append,
  arith,
}
use native.Mathlib.Decide.{ℕ_discrete}
use liburing_rs.Base.Outcome.{StdResult, ok, err}
use liburing_rs.Sys.{Sys, IoUringCqe}
use liburing_rs.Sys.Documented.{Documented}
use liburing_rs.Sys.Progress.{IsQuiet}
use liburing_rs.Error.{Error, Result}
use liburing_rs.Queue.Cqe.{Cqe}
use liburing_rs.Queue.Submission.{is_full}
use liburing_rs.Queue.Completion.{wait_cqe}
use liburing_rs.Queue.Delivery.{IsGuard}
use liburing_rs.Uring
use liburing_rs.Uring.{IoUring}
use liburing_rs.Uring.Laws.{Submits, took, submit-Submits}
use liburing_rs.Uring.Exchange
use liburing_rs.Uring.Exchange.{full, unsubmitted, unanswered, answered}
use liburing_rs.Uring.Lone.{lone_answer, nil_of_length}

module _ (sys : Sys) (doc : Documented sys) where
  open sys use {Ring, Sqe}
  open doc use {sq, cq, inflight}

  -- The ring behind a submission, and behind the wait that follows.
  abbrev pub sent : IoUring sys → Ring
  sent u = (Uring.submit sys u).1.ring

  abbrev pub arrived : IoUring sys → Ring
  arrived u = (wait_cqe sys (sent u)).1

  -- What a submission may refuse, and what follows from that: with `⊥` for `F`, a quiet ring has room
  -- for an entry, and each submission takes every entry.
  pub record Faults (F : Type 0) : Type 0 where
    pub room : (r : Ring) → IsQuiet sys doc r → is_full sys r ≡ true → F
    pub refused : (u : IoUring sys) (e : Error) → (Uring.submit sys u).0 ≡ err e → F
    pub partial :
        (u : IoUring sys) (n : ℕ) → (Uring.submit sys u).0 ≡ ok n → n ≢ length (sq u.ring) → F

  -- The wait for the answer to a lone request that the kernel took fails.
  abbrev pub Silent : Type 0 → Type 0
  Silent F =
      (u : IoUring sys) (s : Sqe) (e : Error)
      → sq u.ring ≡ s ∷ []
      → (Uring.submit sys u).0 ≡ ok 1
      → (wait_cqe sys (sent u)).0 ≡ err e
      → F

  -- A submission that takes as many entries as there are leaves none.
  took_all :
      (u : IoUring sys) (n : ℕ) (r : Ring)
      → Submits sys doc u.ring r (ok n)
      → n ≡ length (sq u.ring)
      → sq r ≡ []
  took_all u n r (took _ taken split count _) all =
      nil_of_length (sq r) (omega (arith, count, all, ap length split, length-append taken (sq r)))

  pub submit_all :
      (u : IoUring sys) (n : ℕ)
      → (Uring.submit sys u).0 ≡ ok n
      → n ≡ length (sq u.ring)
      → sq (sent u) ≡ []
  submit_all u n e all =
      took_all u n (sent u) (subst (Submits sys doc u.ring (sent u)) e (submit-Submits sys doc u))
        all

  module _ {F : Type 0} (faults : Faults F) where
    -- A submission that succeeds leaves no entry, or it is a fault.
    pub takes_all :
        (u : IoUring sys) (n : ℕ) → (Uring.submit sys u).0 ≡ ok n → (sq (sent u) ≡ []) ⊎ F
    takes_all u n e = elim (ℕ_discrete n (length (sq u.ring))) [
      | yes all ↦ inl (submit_all u n e all)
      | no part ↦ inr (faults.partial u n e part)
    ]

    module _ {A : Type 0} (silent : Silent F) (prepare : Sqe → Sqe) (k : ℕ)
        (finish : Ring → Cqe → Result A) where
      -- The request `s` was alone on its ring, and `x` is its answer.
      pub record IsAnswer (r' : Ring) (u : IoUring sys) (c : Cqe) (x : IoUringCqe) : Type 0 where
        pub was : Sqe
        pub queue : sq u.ring ≡ sys.io_uring_sqe_set_data64 (prepare was) k ∷ []
        pub done : cq u.ring ≡ []
        pub flight : inflight u.ring ≡ []
        pub sends : (n : ℕ) × ((Uring.submit sys u).0 ≡ ok n)
        pub waits : (wait_cqe sys (sent u)).0 ≡ ok c
        pub rest : List IoUringCqe
        pub guard : IsGuard sys doc (arrived u) c x rest
        pub own : x.user_data ≡ k
        pub quiet : IsQuiet sys doc r'

      -- To show a property of the result of a lone request: it follows from a fault for each error,
      -- and it holds of what is made of the answer.
      pub lone_ind :
          (P : StdResult A Error → Type 0) (r r' : Ring) (o : StdResult A Error)
          → IsQuiet sys doc r
          → Exchange.Ends sys doc prepare k
              (Uring.submit sys)
              (submit-Submits sys doc)
              finish
              r
              r'
              o
          → ((e : Error) → F → P (err e))
          → ((u : IoUring sys) (c : Cqe) (x : IoUringCqe)
              → IsAnswer r' u c x
              → P (finish (arrived u) c))
          → P o
      lone_ind P r r' (err e) q (full isfull _ _ _) fails gives = fails e (faults.room r q isfull)
      lone_ind P r r' (err e) q (unsubmitted _ sqe u h sub _ _) fails gives =
          fails e (faults.refused u e sub)
      lone_ind P r r' (err e) q (unanswered _ sqe u n taken h sub w _ _ _) fails gives =
          let one : sq u.ring ≡ sqe ∷ [] = h.queue ∙ ap (λ s. s ++ sqe ∷ []) q.queue in
          elim (ℕ_discrete n 1) [
            | yes all ↦ fails e (silent u sqe e one (sub ∙ ap ok all) w)
            | no part ↦ fails e (faults.partial u n sub (λ e. part (e ∙ ap length one)))
          ]
      lone_ind P r r' o q (answered _ sqe u n taken c x rest h sub w guard last count split posts e)
            fails gives =
          let (quiet, own) = lone_answer sys doc r r' k sqe taken x q h.tag split posts in
          subst P (sym e) (
            gives u c x (record {
              was = h.was;
              queue = h.queue ∙ ap (λ s. s ++ sqe ∷ []) q.queue ∙ ap (λ s. s ∷ []) h.made;
              done = h.done ∙ q.done;
              flight = h.flight ∙ q.flight;
              sends = (n, sub);
              waits = w;
              rest = rest;
              guard = guard;
              own = own;
              quiet = quiet;
            }))
