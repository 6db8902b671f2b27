-- ===== src/AsyncIo/Tokio/Start.antt =====
-- src/async_io/tokio_impl.rs: the first poll of a future, which submits its operation.
use liburing_rs.Base.{
  ℕ, ◌+◌, ◌%◌, ◌^◌, ◌≡◌, refl, sym, ◌∙◌, subst, true, Option, some, List, [], ◌∷◌, ◌++◌, map, arith,
}
use liburing_rs.Base.Int.{negsuc, neg_i32}
use liburing_rs.Base.Map.{lookup, lookup-insert}
use liburing_rs.Base.Outcome.{StdResult, ok, err, Step, ◌>>=◌, ◌>>◌}
use liburing_rs.Sys.{Sys}
use liburing_rs.Sys.Documented.{Documented, Posts}
use liburing_rs.Error.{Error, io, from_raw_os_error, submission_queue_full}
use liburing_rs.Ops.Traits.{PrepareOp, set_user_data}
use liburing_rs.Queue.Submission.{get_sqe_or_err, is_full}
use liburing_rs.Queue.Space.{Gets, get_sqe_or_err-Gets}
use liburing_rs.Queue.Fill.{tagged, filled, filled-Fills}
use liburing_rs.Uring
use liburing_rs.Uring.{IoUring}
use liburing_rs.Uring.Laws.{Submits, refused, took, submit-Submits}
use liburing_rs.AsyncIo.Runtime.{Runtime}
use liburing_rs.AsyncIo.Tokio.Defs.{
  ready, Polled, poll, poll_started, submitted, submit_op, Inner, start, take_user_data, on_sqe,
  submit_ring, register,
}

module _ (sys : Sys) (doc : Documented sys) (rt : Runtime) where
  open sys use {Ring, Sqe}
  open rt use {Waker}
  open doc use {sq, cq, inflight, user_data}

  abbrev pub next_of : Inner sys rt → ℕ
  next_of s = (s.next_user_data + 1) % 2 ^ 64

  -- How the submission of a future ended, from the shared state `s` to `s'`.
  pub data Starts (w : Waker) (s s' : Inner sys rt) : StdResult ℕ Error → Type 0 where
    -- the queue was full, and stays as it was
    full :
        is_full sys s.ring.ring ≡ true
        → sq s'.ring.ring ≡ sq s.ring.ring
        → cq s'.ring.ring ≡ cq s.ring.ring
        → inflight s'.ring.ring ≡ inflight s.ring.ring
        → s'.wakers ≡ s.wakers
        → s'.next_user_data ≡ next_of s
        → Starts w s s' (err submission_queue_full)
    -- the entry is queued, and the submission failed: the entry stays queued
    stuck :
        (e : ℕ) (sqe : Sqe)
        → user_data sqe ≡ s.next_user_data
        → sq s'.ring.ring ≡ sq s.ring.ring ++ sqe ∷ []
        → Posts (cq s.ring.ring) (inflight s.ring.ring) (cq s'.ring.ring) (inflight s'.ring.ring)
        → s'.wakers ≡ s.wakers
        → s'.next_user_data ≡ next_of s
        → (u : IoUring sys)
        → (Uring.submit sys u).0 ≡ err (io (from_raw_os_error (neg_i32 (negsuc e))))
        → Starts w s s' (err (io (from_raw_os_error (neg_i32 (negsuc e)))))
    -- the kernel took the oldest entries, and the waker is registered
    sent :
        (sqe : Sqe) (taken : List Sqe)
        → user_data sqe ≡ s.next_user_data
        → sq s.ring.ring ++ sqe ∷ [] ≡ taken ++ sq s'.ring.ring
        → Posts
            (cq s.ring.ring)
            (inflight s.ring.ring ++ map user_data taken)
            (cq s'.ring.ring)
            (inflight s'.ring.ring)
        → lookup s.next_user_data s'.wakers ≡ some w
        → s'.next_user_data ≡ next_of s
        → (u : IoUring sys) (n : ℕ) → (Uring.submit sys u).0 ≡ ok n
        → s'.ring ≡ (Uring.submit sys u).1
        → Starts w s s' (ok s.next_user_data)

  -- The part of `start` behind the call of `submit`, on the result `n` of that call.
  abbrev register_then : ℕ → Waker → StdResult ℕ Error → Step (Inner sys rt) Error ℕ
  register_then k w n = (λ s. (n, s)) >>= λ _. register sys rt k w >> λ s. (ok k, s)

  submit-Starts :
      (w : Waker) (s s' : Inner sys rt) (sqe : Sqe) (u : IoUring sys)
      → user_data sqe ≡ s.next_user_data
      → sq u.ring ≡ sq s.ring.ring ++ sqe ∷ []
      → cq u.ring ≡ cq s.ring.ring
      → inflight u.ring ≡ inflight s.ring.ring
      → s'.wakers ≡ s.wakers
      → s'.next_user_data ≡ next_of s
      → s'.ring ≡ (Uring.submit sys u).1
      → (n : StdResult ℕ Error) → (Uring.submit sys u).0 ≡ n
      → Submits sys doc u.ring s'.ring.ring n
      → Starts w s
          (register_then s.next_user_data w n s').1
          (register_then s.next_user_data w n s').0
  submit-Starts w s s' sqe u key queue done flight same nx on (err _) out (refused e kept posts) =
      stuck e sqe key (kept ∙ queue)
        (subst (λ f. Posts (cq s.ring.ring) f (cq s'.ring.ring) (inflight s'.ring.ring)) flight
          (subst (λ c. Posts c (inflight u.ring) (cq s'.ring.ring) (inflight s'.ring.ring)) done
            posts))
        same nx u out
  submit-Starts w s s' sqe u key queue done flight same nx on (ok _) out
        (took n taken split count posts) =
      sent sqe taken key (sym queue ∙ split)
        (subst
          (λ f.
            Posts (cq s.ring.ring) (f ++ map user_data taken) (cq s'.ring.ring)
              (inflight s'.ring.ring))
          flight
          (subst
            (λ c.
              Posts c (inflight u.ring ++ map user_data taken) (cq s'.ring.ring)
                (inflight s'.ring.ring))
            done posts))
        (ground (arith, lookup-insert s.next_user_data s.next_user_data w s'.wakers)) nx u n out on

  module _ {Op : Type 0} ⦃o : PrepareOp sys Op⦄ where
    -- The part of `start` behind the call of `get_sqe_or_err`, on the result of that call.
    abbrev fill_then : ℕ → Op → Waker → StdResult ℕ Error → Step (Inner sys rt) Error ℕ
    fill_then k op w got = do
      p ← λ s. (got, s)
      on_sqe sys rt p (o.prepare op)
      on_sqe sys rt p (λ t. set_user_data sys t k)
      submit_ring sys rt
      register sys rt k w
      λ s. (ok k, s)

    fill-Starts :
        (op : Op) (w : Waker) (s s' : Inner sys rt) (got : StdResult ℕ Error)
        → s'.wakers ≡ s.wakers
        → s'.next_user_data ≡ next_of s
        → Gets sys doc s.ring.ring got s'.ring.ring
        → Starts w s
            (fill_then s.next_user_data op w got s').1
            (fill_then s.next_user_data op w got s').0
    fill-Starts op w s s' (err _) same nx (Gets.full isfull queue done flight) =
        full isfull queue done flight same nx
    fill-Starts op w s s' (ok p) same nx got =
        let k = s.next_user_data in
        let h = filled-Fills sys doc (o.prepare op) k s.ring.ring s'.ring.ring p got in
        let u : IoUring sys = record { ring = filled sys (o.prepare op) k s'.ring.ring p } in
        submit-Starts w s (record s' { ring = (Uring.submit sys u).1 })
          (tagged sys (o.prepare op) k s'.ring.ring p) u h.tag h.queue h.done h.flight same nx refl
          _ refl (submit-Submits sys doc u)

    pub start-Starts :
        (op : Op) (w : Waker) (s : Inner sys rt)
        → Starts w s (start sys rt op w s).1 (start sys rt op w s).0
    unfolding start take_user_data
    start-Starts op w s =
        fill-Starts op w s
          (record s {
            ring = record { ring = (get_sqe_or_err sys s.ring.ring).1 };
            next_user_data = (s.next_user_data + 1) % 2 ^ 64;
          })
          _ refl refl (get_sqe_or_err-Gets sys doc s.ring.ring)

    -- The poll that continues a submission with the result `r`.
    abbrev pub continues :
        ℕ → Waker → Inner sys rt → StdResult ℕ Error → ℕ → Option (Polled sys rt Op)
    continues fuel w s (ok k) own = poll sys rt fuel w s (submitted k)
    continues fuel w s (err e) own =
        some (record { out = ready (err e); inner = s; future = submitted own; woken = [] })

    started-continues :
        (fuel : ℕ) (w : Waker) (s : Inner sys rt) (own : ℕ) (r : StdResult ℕ Error)
        → poll_started sys rt fuel w own r s ≡ continues fuel w s r own
    unfolding poll
    started-continues fuel w s own (ok k) = refl
    started-continues fuel w s own (err e) = refl

    pub started_poll :
        (fuel : ℕ) (op : Op) (w : Waker) (s : Inner sys rt)
        → let (r, s') = start sys rt op w s in
          poll sys rt fuel w s (submit_op sys rt op) ≡ continues fuel w s' r s.next_user_data
    unfolding poll submit_op
    started_poll fuel op w s =
        let (r, s') = start sys rt op w s in started-continues fuel w s' s.next_user_data r

    -- The first poll of a future gives it the next user data, counts that up modulo 2 ^ 64, and
    -- submits an entry with it. If the submission queue is full, it is ready with that error, and the
    -- queue and the wakers are as before. If the submission fails, it is ready with the OS error, and
    -- its entry stays in the queue. Otherwise the kernel took the oldest entries of the queue with the
    -- new one, the future's waker is registered under its user data, and the poll goes on as the poll
    -- of a submitted future.
    pub first_poll :
        (fuel : ℕ) (op : Op) (w : Waker) (s : Inner sys rt)
        → (r : StdResult ℕ Error) × (s' : Inner sys rt) × Starts w s s' r
          × (poll sys rt fuel w s (submit_op sys rt op) ≡ continues fuel w s' r s.next_user_data)
    unfolding poll submit_op
    first_poll fuel op w s =
        let (r, s') = start sys rt op w s in
        (r, s', start-Starts op w s, started-continues fuel w s' s.next_user_data r)
