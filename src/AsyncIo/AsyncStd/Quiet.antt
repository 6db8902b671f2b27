-- ===== src/AsyncIo/AsyncStd/Quiet.antt =====
-- src/async_io/async_std_impl.rs: on a ring with nothing left over `submit_op` returns its own
-- operation's result; on a ring with a completion left over it returns that one's.
use liburing_rs.Base.{◌≡◌, sym, ap, ◌∙◌, subst, List, ◌∷◌, ◌++◌}
use liburing_rs.Base.Int.{ℤ}
use liburing_rs.Base.Outcome.{StdResult, ok}
use liburing_rs.Sys.{Sys, IoUringCqe}
use liburing_rs.Sys.Documented.{Documented}
use liburing_rs.Sys.Progress.{IsQuiet}
use liburing_rs.Error.{Error}
use liburing_rs.Ops.Traits.{PrepareOp}
use liburing_rs.Queue.Cqe as CqeOps
use liburing_rs.Queue.Cqe.{Cqe}
use liburing_rs.Queue.Completion.{wait_cqe}
use liburing_rs.Queue.Fill.{Fills}
use liburing_rs.Uring
use liburing_rs.Uring.{IoUring}
use liburing_rs.AsyncIo.AsyncStd.Defs.{AsyncIoUring, submit_op}
use liburing_rs.AsyncIo.AsyncStd.Laws.{Ends, submit_op-Ends}
use liburing_rs.Uring.Exchange.{answered}
use liburing_rs.Uring.Lone.{lone_answer}

ok-inj : {a b : ℤ} → ◌≡◌ {A = StdResult ℤ Error} (ok a) (ok b) → a ≡ b
ok-inj e = cc

head_eq : {a b : IoUringCqe} {xs ys : List IoUringCqe} → a ∷ xs ≡ b ∷ ys → a ≡ b
head_eq p = cc

module _ (sys : Sys) (doc : Documented sys) where
  open sys use {Ring, Sqe}
  open doc use {sq, cq, inflight, user_data}

  module _ {Op : Type 0} ⦃o : PrepareOp sys Op⦄ where
    -- From the ring `r` to `r'` the call filled an entry with the user data 1, and the wait behind its
    -- submission gave a completion with the user data 1 and the code `res`, which was taken out.
    abbrev pub Reaps : Op → Ring → Ring → ℤ → Type 0
    Reaps op r r' res =
        (u : IoUring sys) × (sqe : Sqe) × (c : Cqe) × Fills sys doc (o.prepare op) r u.ring 1 sqe
        × (let (got, t) = wait_cqe sys (Uring.submit sys u).1.ring in
            (got ≡ ok c)
            × (CqeOps.user_data sys t c ≡ 1)
            × (CqeOps.result sys t c ≡ res)
            × (r' ≡ CqeOps.drop sys t c))

    Ends-IsQuiet :
        (op : Op) (r r' : Ring) (res : ℤ)
        → IsQuiet sys doc r
        → Ends sys doc op r r' (ok res)
        → IsQuiet sys doc r' × Reaps op r r' res
    Ends-IsQuiet op r r' res q
          (answered _ sqe u n taken c x rest h _ wait guard last _ split posts code) =
        let (quiet, own) = lone_answer sys doc r r' 1 sqe taken x q h.tag split posts in
        (quiet, (u, sqe, c, h, (wait, guard.user_data ∙ own, ok-inj (sym code), last)))

    Ends-first :
        (op : Op) (r r' : Ring) (res : ℤ) (y : IoUringCqe) (rest : List IoUringCqe)
        → cq r ≡ y ∷ rest
        → Ends sys doc op r r' (ok res)
        → res ≡ y.res
    Ends-first op r r' res y rest e
          (answered _ sqe u n taken c x _ h _ _ guard _ _ split posts code) =
        let first : x ∷ cq r' ≡ y ∷ (rest ++ posts.posted) =
          posts.queued ∙ ap (λ c. c ++ posts.posted) e in
        let same : res ≡ x.res = cc (guard.result) in same ∙ ap (λ c. c.res) (head_eq first)

    -- On a quiet ring, a call that returns a code leaves the ring quiet again. It filled an entry with
    -- the user data 1, which every entry of `submit_op` carries, and the code is that of the completion
    -- that its wait gave behind the submission, which has the user data 1; its drop left the ring as
    -- it is.
    pub submit_op-IsQuiet :
        (op : Op) (s : AsyncIoUring sys) {res : ℤ}
        → IsQuiet sys doc s.ring.ring
        → (submit_op sys op s).0 ≡ ok res
        → IsQuiet sys doc (submit_op sys op s).1.ring.ring
          × Reaps op s.ring.ring (submit_op sys op s).1.ring.ring res
    submit_op-IsQuiet op s {res} q e =
        Ends-IsQuiet op s.ring.ring (submit_op sys op s).1.ring.ring res q (
          subst (Ends sys doc op s.ring.ring (submit_op sys op s).1.ring.ring) e
            (submit_op-Ends sys doc op s))

    -- If an earlier call left a completion in the queue, as one does that fails at its wait, then a
    -- later call that returns a code returns the code of that completion, whatever it submitted.
    pub submit_op_stale :
        (op : Op) (s : AsyncIoUring sys) {res : ℤ} (y : IoUringCqe) (rest : List IoUringCqe)
        → cq s.ring.ring ≡ y ∷ rest
        → (submit_op sys op s).0 ≡ ok res
        → res ≡ y.res
    submit_op_stale op s {res} y rest left e =
        Ends-first op s.ring.ring (submit_op sys op s).1.ring.ring res y rest left (
          subst (Ends sys doc op s.ring.ring (submit_op sys op s).1.ring.ring) e
            (submit_op-Ends sys doc op s))
