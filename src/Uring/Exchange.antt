-- ===== src/Uring/Exchange.antt =====
-- One request after another: an entry is filled and tagged, the queue is submitted, and the oldest
-- completion is awaited, read and dropped. `submit_op` of src/async_io/async_std_impl.rs and the
-- examples that read with one request at a time have this shape.
use liburing_rs.Base.{ℕ, ◌≡◌, refl, sym, ap, ◌∙◌, subst, true, List, [], ◌∷◌, ◌++◌, map, length}
use liburing_rs.Base.Outcome.{StdResult, ok, err, Step, ◌>>=◌, ◌>>◌}
use liburing_rs.Sys.{Sys, IoUringCqe}
use liburing_rs.Sys.Documented.{Documented, Posts}
use liburing_rs.Sys.Progress.{Posts-trans, Posts-cons}
use liburing_rs.Error.{Error, Result, submission_queue_full}
use liburing_rs.Ops.Traits.{set_user_data}
use liburing_rs.Queue.Cqe as CqeOps
use liburing_rs.Queue.Cqe.{Cqe}
use liburing_rs.Queue.Completion.{wait_cqe}
use liburing_rs.Queue.Submission.{get_sqe_or_err, is_full}
use liburing_rs.Queue.Space.{Gets, get_sqe_or_err-Gets}
use liburing_rs.Queue.Fill.{tagged, filled, Fills, filled-Fills}
use liburing_rs.Queue.Delivery.{IsGuard, Gives, failed, nothing, given, wait_cqe-Gives, drop_lem}
use liburing_rs.Uring.{IoUring}
use liburing_rs.Uring.Laws.{Submits, refused, took}

module _ (sys : Sys) where
  open sys use {Ring, Sqe}

  -- A method of a queue, and a call on the entry at an address, as steps of the ring.
  abbrev pub on_ring : {A : Type 0} → (Ring → Result A × Ring) → Step (IoUring sys) Error A
  on_ring f u = let (a, r) = f u.ring in (a, record { ring = r })

  abbrev pub on_sqe : ℕ → (Sqe → Sqe) → Step (IoUring sys) Error (Unit {0})
  on_sqe p f = on_ring (λ r. (ok tt, sys.set_sqe r p (f (sys.sqe_at r p))))

  module _ {A : Type 0} (doc : Documented sys) (prepare : Sqe → Sqe) (k : ℕ)
      (submission : Step (IoUring sys) Error ℕ)
      (submits : (u : IoUring sys) → Submits sys doc u.ring (submission u).1.ring (submission u).0)
      (finish : sys.Ring → Cqe → Result A) where
    open doc use {sq, cq, inflight, user_data}

    -- How it ended, from the ring `r` to `r'`.
    pub data Ends (r r' : Ring) : StdResult A Error → Type 0 where
      full :
          is_full sys r ≡ true
          → sq r' ≡ sq r
          → cq r' ≡ cq r
          → inflight r' ≡ inflight r
          → Ends r r' (err submission_queue_full)
      -- the submission failed, and the entry stays in the queue
      unsubmitted :
          (e : Error) (sqe : Sqe) (u : IoUring sys)
          → Fills sys doc prepare r u.ring k sqe
          → (submission u).0 ≡ err e
          → sq r' ≡ sq r ++ sqe ∷ []
          → Posts (cq r) (inflight r) (cq r') (inflight r')
          → Ends r r' (err e)
      -- the wait failed, and the completion is still to come or stays in the queue
      unanswered :
          (e : Error) (sqe : Sqe) (u : IoUring sys) (n : ℕ) (taken : List Sqe)
          → Fills sys doc prepare r u.ring k sqe
          → (submission u).0 ≡ ok n
          → (wait_cqe sys (submission u).1.ring).0 ≡ err e
          → length taken ≡ n
          → sq r ++ sqe ∷ [] ≡ taken ++ sq r'
          → Posts (cq r) (inflight r ++ map user_data taken) (cq r') (inflight r')
          → Ends r r' (err e)
      -- the oldest completion `x` is taken out, and gives the result
      answered :
          (o : StdResult A Error) (sqe : Sqe) (u : IoUring sys) (n : ℕ) (taken : List Sqe) (c : Cqe)
          (x : IoUringCqe) (rest : List IoUringCqe)
          → Fills sys doc prepare r u.ring k sqe
          → (submission u).0 ≡ ok n
          → (wait_cqe sys (submission u).1.ring).0 ≡ ok c
          → IsGuard sys doc (wait_cqe sys (submission u).1.ring).1 c x rest
          → r' ≡ CqeOps.drop sys (wait_cqe sys (submission u).1.ring).1 c
          → length taken ≡ n
          → sq r ++ sqe ∷ [] ≡ taken ++ sq r'
          → Posts (cq r) (inflight r ++ map user_data taken) (x ∷ cq r') (inflight r')
          → o ≡ finish (wait_cqe sys (submission u).1.ring).1 c
          → Ends r r' o

    -- The part behind the wait, on its result.
    abbrev read_then : StdResult Cqe Error → Step (IoUring sys) Error A
    read_then got = do cqe ← λ u. (got, u); on_ring (λ r. (finish r cqe, CqeOps.drop sys r cqe))

    -- The part behind the submission.
    abbrev wait_then : StdResult ℕ Error → Step (IoUring sys) Error A
    wait_then n = do
      λ u. (n, u)
      cqe ← on_ring (wait_cqe sys)
      on_ring (λ r. (finish r cqe, CqeOps.drop sys r cqe))

    -- The part behind the call of `get_sqe_or_err`.
    abbrev fill_then : StdResult ℕ Error → Step (IoUring sys) Error A
    fill_then got = do
      p ← λ u. (got, u)
      on_sqe p prepare
      on_sqe p (λ t. set_user_data sys t k)
      submission
      cqe ← on_ring (wait_cqe sys)
      on_ring (λ r. (finish r cqe, CqeOps.drop sys r cqe))

    abbrev pub exchange : Step (IoUring sys) Error A
    exchange = do
      p ← on_ring (get_sqe_or_err sys)
      on_sqe p prepare
      on_sqe p (λ t. set_user_data sys t k)
      submission
      cqe ← on_ring (wait_cqe sys)
      on_ring (λ r. (finish r cqe, CqeOps.drop sys r cqe))

    module _ (r : Ring) (sqe : Sqe) (u : IoUring sys)
        (h : Fills sys doc prepare r u.ring k sqe) where
      abbrev sent : IoUring sys
      sent = (submission u).1

      read-Ends :
          (n : ℕ) (taken : List Sqe)
          → (submission u).0 ≡ ok n
          → length taken ≡ n
          → sq r ++ sqe ∷ [] ≡ taken ++ sq sent.ring
          → Posts (cq r) (inflight r ++ map user_data taken) (cq sent.ring) (inflight sent.ring)
          → (got : StdResult Cqe Error) → (wait_cqe sys sent.ring).0 ≡ got
          → Gives sys doc sent.ring (wait_cqe sys sent.ring).1 got
          → let (res, v) = read_then got (record { ring = (wait_cqe sys sent.ring).1 }) in
            Ends r v.ring res
      read-Ends n taken sub count split posts (err _) w (failed e _ g) =
          unanswered _ sqe u n taken h sub w count (split ∙ ap (λ q. taken ++ q) (sym g.same))
            (Posts-trans posts g.posts)
      read-Ends n taken sub count split posts (err _) w (nothing _ g e) =
          unanswered _ sqe u n taken h sub w count (split ∙ ap (λ q. taken ++ q) (sym g.same))
            (Posts-trans posts g.posts)
      read-Ends n taken sub count split posts (ok c) w (given _ x rest g guard) =
          let r2 = (wait_cqe sys sent.ring).1 in
          let (drops, same) = drop_lem sys doc r2 c x rest guard in
          answered (finish r2 c) sqe u n taken c x rest h sub w guard refl count
            (split ∙ ap (λ q. taken ++ q) (sym (same ∙ g.same)))
            (Posts-trans
              (subst (λ cs. Posts (cq r) (inflight r ++ map user_data taken) cs (inflight r2))
                guard.oldest (Posts-trans posts g.posts))
              (Posts-cons x drops))
            refl

      wait-Ends :
          (n : StdResult ℕ Error)
          → (submission u).0 ≡ n
          → Submits sys doc u.ring sent.ring n
          → let (res, v) = wait_then n sent in Ends r v.ring res
      wait-Ends (err _) e (refused n kept posts) = unsubmitted _ sqe u h e (kept ∙ h.queue) (
          subst (λ f. Posts (cq r) f (cq sent.ring) (inflight sent.ring)) h.flight
            (subst (λ c. Posts c (inflight u.ring) (cq sent.ring) (inflight sent.ring)) h.done
              posts))
      wait-Ends (ok _) e (took n taken split count posts) =
          read-Ends n taken e count (sym h.queue ∙ split)
            (subst
              (λ f. Posts (cq r) (f ++ map user_data taken) (cq sent.ring) (inflight sent.ring))
              h.flight
              (subst
                (λ c.
                  Posts c (inflight u.ring ++ map user_data taken) (cq sent.ring)
                    (inflight sent.ring))
                h.done posts))
            (wait_cqe sys sent.ring).0 refl (wait_cqe-Gives sys doc sent.ring)

    fill-Ends :
        (r r' : Ring) (got : StdResult ℕ Error)
        → Gets sys doc r got r'
        → let (res, v) = fill_then got (record { ring = r' }) in Ends r v.ring res
    fill-Ends r r' (err _) (Gets.full isfull queue done flight) = full isfull queue done flight
    fill-Ends r r' (ok p) got =
        let u : IoUring sys = record { ring = filled sys prepare k r' p } in
        wait-Ends r (tagged sys prepare k r' p) u (filled-Fills sys doc prepare k r r' p got) _ refl
          (submits u)

    pub exchange-Ends : (u : IoUring sys) → Ends u.ring (exchange u).1.ring (exchange u).0
    exchange-Ends u = fill-Ends u.ring _ _ (get_sqe_or_err-Gets sys doc u.ring)
